-- ===== src/Pools/External/ImportDialog/Once.antt =====
-- A file that is submitted again and again until its dialog closes becomes one pool, although
-- reading it may use the clock.
use danmaku.Prelude.{
  ℕ, ◌+◌, ◌≤◌, ◌≡◌, refl, sym, ap, ◌∙◌, arith, Bool, true, false, ◌&&◌, if◌then◌else◌, Option, none,
  some, List, [], ◌∷◌, if-holds, inl, inr, Option-cases,
}
use mathlib.Core.Path.{subst}
use danmaku.Js.Text.{Text, codes, text_eq, text_eq_refl}
use danmaku.Js.Number.{Number}
use danmaku.Js.Outcome.{Outcome, returned, thrown, Async}
use danmaku.Js.Value.{Value}
use danmaku.Api.Client.{Request, Response, api_post}
use danmaku.Api.Types.Danmaku.{DanmakuData}
use danmaku.Import.File.{ImportFormat}
use danmaku.PoolCreation.{PoolVideoTarget}
use danmaku.PoolCreation.Retries.{added, Pending, Pending-le, Progress}
use danmaku.Binding.{PoolVideoBinding, bind_pool}
use danmaku.Pools.Requests.Counted.{submit_creation-Progress}
use danmaku.Pools.External.ImportDialog.{
  ImportDialog, ParsedFile, format_value, import_keys, import_message, imported_pool_id,
  with_target, parsed_before, remember, parse_unless, import_pool, body_of, import_settled, parsed,
  submit_file, submit,
}

module _ {F : Type 0} (same_file : F → F → Bool)
    (same_file_refl : (f : F) → same_file f f ≡ true) where
  -- What was just read from a file is found again.
  parsed_before-remember :
      (file : F) (format : ImportFormat) (danmaku : List DanmakuData) (old : Option (ParsedFile F))
      → parsed_before same_file file format (remember file format (returned danmaku) old)
        ≡ some danmaku
  unfolding parsed_before
  parsed_before-remember file format danmaku old =
      ap
        (λ b.
          if b && text_eq (format_value format) (format_value format) then some danmaku else none)
        (same_file_refl file)
      ∙ ap (λ b. if b then some danmaku else none) (text_eq_refl (format_value format))

module _ {F W : Type 0} (same_file : F → F → Bool) (file_name : F → Text)
    (import_file : F → ImportFormat → Async W (List DanmakuData)) (stringify : Value → Text)
    (fetch : Request → Async W Response) (invalidate : Text → W → W) where
  -- A video and an offset are chosen and the dialog of a new pool is submitted, for each target in
  -- turn, until it closes.
  unfoldable pub import_attempts : List PoolVideoTarget → ImportDialog F → W → ImportDialog F × W
  unfolding submit with_target
  import_attempts [] d w = (d, w)
  import_attempts (t ∷ ts) d w =
      let (d', w') =
        submit same_file file_name import_file stringify fetch invalidate none
          (with_target t.video_id t.offset d) w in
      if d'.shown then import_attempts ts d' w' else (d', w')

  module _ (file : F) (count : W → ℕ) where
    abbrev key_of : List DanmakuData → ImportDialog F → Text
    key_of danmaku d =
        stringify
          (body_of same_file file_name import_file stringify fetch invalidate none file danmaku d)

    -- Nothing is created yet; or the file was read, and what was done for its danmaku is pending; or
    -- the dialog has closed after one creation.
    data Tally (base : ℕ) (d : ImportDialog F) (w : W) : Type 0 where
      untouched :
          d.file ≡ some file
          → d.creation_binding.workflow ≡ none
          → count w ≡ base
          → d.shown ≡ true
          → Tally base d w
      read :
          (danmaku : List DanmakuData)
          → d.file ≡ some file
          → parsed_before same_file file d.format d.parsed_file ≡ some danmaku
          → Pending count (key_of danmaku d) base d.creation_binding.workflow w
          → d.shown ≡ true
          → Tally base d w
      made : d.shown ≡ false → count w ≡ base + 1 → Tally base d w

    settled-Tally :
        (base : ℕ) (danmaku : List DanmakuData) (o : Outcome Value) (b : PoolVideoBinding Value)
        (d : ImportDialog F) (w : W)
        → d.file ≡ some file
        → parsed_before same_file file d.format d.parsed_file ≡ some danmaku
        → d.shown ≡ true
        → Progress count (key_of danmaku d) base (o, b.workflow, w)
        → Tally base
            (import_settled same_file file_name import_file stringify fetch invalidate none o b d)
            w
    unfolding import_settled
    settled-Tally base danmaku (returned v) b d w is kept shown (_, n) = made refl n
    settled-Tally base danmaku (thrown e) b d w is kept shown h = read danmaku is kept h shown

    module _ (same_file_refl : (f : F) → same_file f f ≡ true)
        (invalidate_keeps : (key : Text) (w : W) → count (invalidate key w) ≡ count w)
        (import_keeps : (f : F) (format : ImportFormat) (w : W)
          → count (import_file f format w).1 ≡ count w)
        (create_counts : (body : Value) (w : W)
          → count (api_post fetch (codes "/api/admin/external") body w).1
            ≡ count w + added (api_post fetch (codes "/api/admin/external") body w).0)
        (bind_keeps : (result : Value) (video offset : Number) (w : W)
          → count
              (bind_pool stringify fetch invalidate
                (codes "external")
                imported_pool_id
                result
                video
                offset
                w).1
            ≡ count w) where
      parsed-Tally :
          (base : ℕ) (danmaku : List DanmakuData) (d : ImportDialog F) (w : W)
          → d.file ≡ some file
          → parsed_before same_file file d.format d.parsed_file ≡ some danmaku
          → d.shown ≡ true
          → Pending count (key_of danmaku d) base d.creation_binding.workflow w
          → (let (d', w') =
                parsed same_file file_name import_file stringify fetch invalidate none file
                  (returned danmaku)
                  d
                  w in
              Tally base d' w')
      unfolding parsed import_pool
      parsed-Tally base danmaku d w is kept shown h =
          settled-Tally base danmaku _ _ d _ is kept shown (
            submit_creation-Progress stringify fetch invalidate (codes "external")
              (api_post fetch (codes "/api/admin/external")) imported_pool_id count invalidate_keeps
              create_counts bind_keeps import_keys (import_message none d.creation_binding.video_id)
              base
              (body_of same_file file_name import_file stringify fetch invalidate none file danmaku
                d)
              d.creation_binding w h)

      empty-Pending :
          (base : ℕ) (danmaku : List DanmakuData) (d : ImportDialog F) (w : W)
          → d.creation_binding.workflow ≡ none
          → count w ≡ base
          → Pending count (key_of danmaku d) base d.creation_binding.workflow w
      empty-Pending base danmaku d w empty n =
          subst (λ saved. Pending count (key_of danmaku d) base saved w) (sym empty) n

      -- Reading the file for the first time, or again after it could not be read.
      fresh-Tally :
          (base : ℕ) (o : Outcome (List DanmakuData)) (d : ImportDialog F) (w : W)
          → d.file ≡ some file
          → d.shown ≡ true
          → d.creation_binding.workflow ≡ none
          → count w ≡ base
          → (let (d', w') =
                parsed same_file file_name import_file stringify fetch invalidate none file o
                  (record d {
                    parse_error = [];
                    parsed_file = remember file d.format o d.parsed_file;
                  })
                  w in
              Tally base d' w')
      unfolding parsed
      fresh-Tally base (thrown e) d w is shown empty n = untouched is empty n shown
      fresh-Tally base (returned danmaku) d w is shown empty n =
          parsed-Tally base danmaku
            (record d {
              parse_error = [];
              parsed_file = remember file d.format (returned danmaku) d.parsed_file;
            })
            w is
            (parsed_before-remember same_file same_file_refl file d.format danmaku d.parsed_file)
            shown (empty-Pending base danmaku d w empty n)

      -- The dialog after the file was read, or found to be read before.
      abbrev Submitted : ℕ → ImportDialog F → W → Option (List DanmakuData) → Type 0
      Submitted base d w found =
          (let (o, parsed_file', w') =
              parse_unless same_file file_name import_file file d.format d.parsed_file found w in
            let (d', w'') =
              parsed same_file file_name import_file stringify fetch invalidate none file o
                (record d { parse_error = []; parsed_file = parsed_file' }) w' in
            Tally base d' w'')

      submit_file-Tally :
          (base : ℕ) (d : ImportDialog F) (w : W)
          → d.shown ≡ true
          → Tally base d w
          → Submitted base d w (parsed_before same_file file d.format d.parsed_file)
      unfolding parse_unless
      submit_file-Tally base d w shown (untouched is empty n _) =
          elim (Option-cases (parsed_before same_file file d.format d.parsed_file)) [
            | inl e ↦
                subst (Submitted base d w) (sym e)
                  (fresh-Tally base _ d _ is shown empty (import_keeps file d.format w ∙ n))
            | inr (danmaku, e) ↦ subst (Submitted base d w) (sym e) (
                parsed-Tally base danmaku (record d { parse_error = [] }) w is e shown
                  (empty-Pending base danmaku d w empty n))
          ]
      submit_file-Tally base d w shown (read danmaku is kept h _) =
          subst (Submitted base d w) (sym kept)
            (parsed-Tally base danmaku (record d { parse_error = [] }) w is kept shown h)
      submit_file-Tally base d w shown (made hidden n) = cc

      submit-Tally :
          (base : ℕ) (d : ImportDialog F) (w : W)
          → d.shown ≡ true
          → d.file ≡ some file
          → Tally base d w
          → (let (d', w') =
                submit same_file file_name import_file stringify fetch invalidate none d w in
              Tally base d' w')
      unfolding submit submit_file
      submit-Tally base d w shown is h =
          subst
            (λ f.
              Tally base
                (submit_file same_file file_name import_file stringify fetch invalidate none f d
                  w).0
                (submit_file same_file file_name import_file stringify fetch invalidate none f d
                  w).1)
            (sym is) (submit_file-Tally base d w shown h)

      file-kept :
          (base : ℕ) (d : ImportDialog F) (w : W)
          → d.shown ≡ true
          → Tally base d w
          → d.file ≡ some file
      file-kept base d w shown (untouched is empty n _) = is
      file-kept base d w shown (read danmaku is kept h _) = is
      file-kept base d w shown (made hidden n) = cc

      with_target-Tally :
          (base : ℕ) (t : PoolVideoTarget) (d : ImportDialog F) (w : W)
          → Tally base d w
          → Tally base (with_target t.video_id t.offset d) w
      unfolding with_target
      with_target-Tally base t d w (untouched is empty n shown) = untouched is empty n shown
      with_target-Tally base t d w (read danmaku is kept h shown) = read danmaku is kept h shown
      with_target-Tally base t d w (made hidden n) = made hidden n

      import_attempts-Tally :
          (base : ℕ) (ts : List PoolVideoTarget) (d : ImportDialog F) (w : W)
          → d.shown ≡ true
          → Tally base d w
          → (let (d', w') = import_attempts ts d w in Tally base d' w')
      unfolding import_attempts with_target
      import_attempts-Tally base [] d w shown h = h
      import_attempts-Tally base (t ∷ ts) d w shown h =
          let h' = with_target-Tally base t d w h in
          let after =
            submit-Tally base (with_target t.video_id t.offset d) w shown
              (file-kept base _ w shown h') h' in
          if-holds (λ r. Tally base r.0 r.1) _ (import_attempts ts _ _) (_, _)
            (λ again. import_attempts-Tally base ts _ _ again after) (λ _. after)

      Tally-bounds :
          (base : ℕ) (d : ImportDialog F) (w : W)
          → Tally base d w
          → (count w ≤ base + 1) × (d.shown ≡ false → count w ≡ base + 1)
      Tally-bounds base d w (untouched is empty n shown) = (omega arith, λ hidden. cc)
      Tally-bounds base d w (read danmaku is kept h shown) =
          (Pending-le count _ base d.creation_binding.workflow w h, λ hidden. cc)
      Tally-bounds base d w (made hidden n) = (omega arith, λ _. n)

      -- Provided that a creation that succeeds adds one pool to the server's and one that fails none,
      -- that binding, reading a file and the refreshing of queries add none, and that a file is the
      -- same as itself: however often the dialog of a new pool is submitted with a file, from one with
      -- nothing saved, and whichever videos and offsets are chosen in between, at most one pool is
      -- added, whatever each reading of the file would give; and exactly one when it has closed.
      pub import_attempts-create_once :
          (ts : List PoolVideoTarget) (d : ImportDialog F) (w : W)
          → d.shown ≡ true
          → d.file ≡ some file
          → d.creation_binding.workflow ≡ none
          → (let (d', w') = import_attempts ts d w in
              (count w' ≤ count w + 1) × (d'.shown ≡ false → count w' ≡ count w + 1))
      import_attempts-create_once ts d w shown is empty =
          Tally-bounds (count w) _ _
            (import_attempts-Tally (count w) ts d w shown (untouched is empty refl shown))
