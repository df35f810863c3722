-- ===== src/Import/File/Database.antt =====
-- The database of an import, and the errors that leave it.
use danmaku.Prelude.{ℕ, ◌≡◌, ◌≢◌, ◌⊎◌, refl, inl, inr, List, [], ◌∷◌, ◌++◌, ap}
use danmaku.Js.Text.{Text, codes}
use danmaku.Js.Value.{Value, null, array}
use danmaku.Js.Outcome.{error, Outcome, returned, thrown, continue, message_or}
use danmaku.Api.Types.Danmaku.{DanmakuData}
use danmaku.Import.Normalized.{DanAnyItem, normalized_danmaku}
use danmaku.Import.File.{
  ImportFormat, Adapter, Payload, Event, opened, closed, imported, Platform, Import,
  database_import, import_chunk_of, import_danmaku_file, import_dan_any_ass, settle, from_json,
  from_binary, from_text, file_json, legacy_list, legacy_parsed, legacy_raw, legacy_bytes,
  current_raw, ass_bytes, lift, danuni_pb_adapter, binary,
}

module _ (p : Platform) where
  -- What an import inside the `try` may do to the database: import one adapter's result, as it must
  -- if it returns, or fail with nothing imported.
  abbrev Once : Outcome (List DanAnyItem) × List Event → List Event → Type 0
  Once (returned chunk, after) before =
      (adapter : Adapter) × (payload : Payload) × (p.import_chunk adapter payload ≡ returned chunk)
      × (after ≡ before ++ imported adapter payload ∷ [])
  Once (thrown e, after) before =
      (after ≡ before)
      ⊎ ((adapter : Adapter) × (payload : Payload) × (after
            ≡ before ++ imported adapter payload ∷ []))

  database_import-Once :
      (adapter : Adapter) (payload : Payload) (before : List Event)
      → Once (database_import p adapter payload before) before
  unfolding database_import
  database_import-Once adapter payload before = go (p.import_chunk adapter payload) refl
    where
      go :
          (o : Outcome (List DanAnyItem))
          → p.import_chunk adapter payload ≡ o
          → Once (o, before ++ imported adapter payload ∷ []) before
      go (returned chunk) e = (adapter, payload, e, refl)
      go (thrown t) e = inr (adapter, payload, refl)

  -- A read that may throw, and then an import.
  lift-Once :
      {A : Type 0} (o : Outcome A) (f : A → Import (List DanAnyItem)) (before : List Event)
      → ((a : A) → Once (f a before) before)
      → Once (continue o f before) before
  lift-Once (returned a) f before h = h a
  lift-Once (thrown e) f before h = inl refl

  from_text-Once : (a : Adapter) (before : List Event) → Once (from_text p a before) before
  unfolding from_text
  from_text-Once a before = lift-Once p.file_text _ before (λ t. database_import-Once a _ before)

  from_binary-Once : (a : Adapter) (before : List Event) → Once (from_binary p a before) before
  unfolding from_binary
  from_binary-Once a before = lift-Once p.file_bytes _ before (λ b. database_import-Once a _ before)

  -- JSON.parse of the file's text, and then an import.
  file_json-Once :
      (f : Value → Import (List DanAnyItem)) (before : List Event)
      → ((v : Value) → Once (f v before) before)
      → Once (let (o, after) = file_json p before in continue o f after) before
  unfolding file_json
  file_json-Once f before h = go p.file_text
    where
      go :
          (o : Outcome Text)
          → Once
              (let (o', after) = continue o (λ t. lift (p.json_parse t)) before in
                continue o' f after)
              before
      go (returned t) = lift-Once (p.json_parse t) f before h
      go (thrown e) = inl refl

  from_json-Once : (a : Adapter) (before : List Event) → Once (from_json p a before) before
  unfolding from_json
  from_json-Once a before = file_json-Once _ before (λ v. database_import-Once a _ before)

  legacy_list-Once : (v : Value) (before : List Event) → Once (legacy_list p v before) before
  unfolding legacy_list
  legacy_list-Once (array vs) before = database_import-Once _ _ before
  legacy_list-Once _ before = inl refl

  legacy_parsed-Once : (v : Value) (before : List Event) → Once (legacy_parsed p v before) before
  unfolding legacy_parsed
  legacy_parsed-Once null before = inl refl
  legacy_parsed-Once v before = legacy_list-Once _ before

  legacy_bytes-Once :
      (bytes : List ℕ) (before : List Event) → Once (legacy_bytes p bytes before) before
  unfolding legacy_bytes
  legacy_bytes-Once bytes before =
      lift-Once (p.json_parse (p.text_decode bytes)) (legacy_parsed p) before
        λ v. legacy_parsed-Once v before

  legacy_raw-Once :
      (raw base compression : Text) (before : List Event)
      → Once (legacy_raw p raw base compression before) before
  unfolding legacy_raw
  legacy_raw-Once [] base compression before = inl refl
  legacy_raw-Once (c ∷ s) base compression before =
      lift-Once (ass_bytes p (c ∷ s) base compression) (legacy_bytes p) before
        λ bytes. legacy_bytes-Once bytes before

  current_raw-Once :
      (raw legacy base compression : Text) (before : List Event)
      → Once (current_raw p raw legacy base compression before) before
  unfolding current_raw
  current_raw-Once [] legacy base compression before =
      legacy_raw-Once legacy base compression before
  current_raw-Once (c ∷ s) legacy base compression before =
      lift-Once (ass_bytes p (c ∷ s) base compression)
        (λ bytes. database_import p danuni_pb_adapter (binary bytes)) before
        λ bytes. database_import-Once danuni_pb_adapter (binary bytes) before

  import_dan_any_ass-Once :
      (text : Text) (before : List Event) → Once (import_dan_any_ass p text before) before
  unfolding import_dan_any_ass
  import_dan_any_ass-Once text before = current_raw-Once _ _ _ _ before

  import_chunk_of-Once :
      (format : ImportFormat) (before : List Event)
      → format ≢ ImportFormat.common_json
      → Once (import_chunk_of p format before) before
  unfolding import_chunk_of
  import_chunk_of-Once ImportFormat.common_json before ne = absurd (ne refl)
  import_chunk_of-Once ImportFormat.danuni_json before ne = from_json-Once _ before
  import_chunk_of-Once ImportFormat.danuni_pb before ne = from_binary-Once _ before
  import_chunk_of-Once ImportFormat.bilibili_xml before ne = from_text-Once _ before
  import_chunk_of-Once ImportFormat.bilibili_pb before ne = from_binary-Once _ before
  import_chunk_of-Once ImportFormat.bilibili_command_pb before ne = from_binary-Once _ before
  import_chunk_of-Once ImportFormat.dplayer_json before ne =
      file_json-Once _ before (λ v. database_import-Once _ _ before)
  import_chunk_of-Once ImportFormat.artplayer_json before ne =
      file_json-Once _ before (λ v. database_import-Once _ _ before)
  import_chunk_of-Once ImportFormat.iqiyi_xml before ne = from_text-Once _ before
  import_chunk_of-Once ImportFormat.ass before ne =
      lift-Once p.file_text (import_dan_any_ass p) before λ t. import_dan_any_ass-Once t before
  import_chunk_of-Once _ before ne = from_json-Once _ before

  -- What an import of a file in a foreign format leaves.
  abbrev pub IsClean : Outcome (List DanmakuData) × List Event → Type 0
  IsClean (returned ds, events) =
      (adapter : Adapter) × (payload : Payload) × (chunk : List DanAnyItem) × (p.import_chunk
          adapter payload
        ≡ returned chunk)
      × (ds ≡ normalized_danmaku p.date_now chunk)
      × (events ≡ opened ∷ imported adapter payload ∷ closed ∷ [])
  IsClean (thrown e, events) =
      ((message : Text) × (e ≡ error (codes "无法按所选格式解析文件：" ++ message)))
      × ((events ≡ opened ∷ closed ∷ [])
          ⊎ ((adapter : Adapter) × (payload : Payload) × (events
                ≡ opened ∷ imported adapter payload ∷ closed ∷ [])))

  settle-IsClean :
      (out : Outcome (List DanAnyItem) × List Event)
      → Once out (opened ∷ [])
      → IsClean (settle p out)
  settle-IsClean (returned chunk, after) (adapter, payload, e, trace) =
      (adapter, payload, chunk, e, refl, ap (λ t. t ++ closed ∷ []) trace)
  settle-IsClean (thrown e, after) (inl trace) =
      ((message_or (codes "文件内容无效") e, refl), inl (ap (λ t. t ++ closed ∷ []) trace))
  settle-IsClean (thrown e, after) (inr (adapter, payload, trace)) = (
    (message_or (codes "文件内容无效") e, refl),
    inr (adapter, payload, ap (λ t. t ++ closed ∷ []) trace),
  )

  -- Importing a file in a format other than `common.json` opens one database and closes it last,
  -- whether it returns or throws. If it returns, exactly one adapter's result was imported, and the
  -- danmaku are that chunk's, normalized. If it throws, it throws an error whose message begins
  -- with the text that names the chosen format as the cause, and at most one result was imported.
  pub import_danmaku_file-IsClean :
      (format : ImportFormat)
      → format ≢ ImportFormat.common_json
      → IsClean (import_danmaku_file p format [])
  unfolding import_danmaku_file
  import_danmaku_file-IsClean ImportFormat.common_json ne = absurd (ne refl)
  import_danmaku_file-IsClean format ne = settle-IsClean _ (import_chunk_of-Once format _ ne)
