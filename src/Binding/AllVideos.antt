-- ===== src/Binding/AllVideos.antt =====
-- The loop that fetches every video ends, with all of them.
use danmaku.Prelude.{
  ℕ, zero, suc, ◌+◌, ◌*◌, ◌-◌, ◌^◌, ◌≤◌, ◌<◌, true, false, Bool-cases, ◌≡◌, refl, inl, inr, some,
  List, [], ◌∷◌, ◌++◌, length, length-append, take, drop, arith, ltb, mul-le, pos, negsuc,
}
use danmaku.Js.Text.{codes}
use danmaku.Js.Number.{Number, nan, infinity, neg_infinity, decimal, integer, to_number}
use danmaku.Js.Outcome.{Outcome, returned, thrown, Async}
use danmaku.Js.Value.{
  Value, undefined, null, boolean, string, array, number, of_items, property, object, field, end,
}
use danmaku.Api.Client.{Request, Response}
use danmaku.Binding.{
  reaches, reaches_number, push_page, after_page, get_page, fetch_pages, fetch_all_videos,
}

reaches_number-le :
    (n m : ℕ) (total : Number)
    → n ≤ m
    → reaches_number n total ≡ true
    → reaches_number m total ≡ true
reaches_number-le n m (decimal (pos total) k) h e = let more = mul-le n m (10 ^ k) h in ground arith
reaches_number-le n m (decimal (negsuc total) k) h e = refl
reaches_number-le n m neg_infinity h e = refl
reaches_number-le n m infinity h e = cc
reaches_number-le n m nan h e = cc

reaches-le : (n m : ℕ) (total : Value) → n ≤ m → reaches n total ≡ true → reaches m total ≡ true
unfolding reaches
reaches-le n m (number total) h e = reaches_number-le n m total h e
reaches-le n m (string s) h e = reaches_number-le n m (to_number s) h e
reaches-le n m (boolean true) h e = ground arith
reaches-le n m (boolean false) h e = refl
reaches-le n m null h e = refl
reaches-le n m undefined h e = cc
reaches-le n m (array vs) h e = cc
reaches-le n m (object fs) h e = cc

-- What has not reached a total is below all that does.
reaches-lt : (n m : ℕ) (total : Value) → reaches n total ≡ true → reaches m total ≡ false → m < n
reaches-lt n m total h k = elim (Bool-cases (ltb m n)) [
  | inl e ↦ ground arith
  | inr e ↦ let more = reaches-le n m total (ground arith) h in cc
]

module _ {W : Type 0} (fetch : Request → Async W Response) where
  module _ (bound : ℕ)
      (bounded : (page : ℕ) (w : W) (body : Value)
        → (get_page fetch page w).0 ≡ returned body
        → reaches bound (property (codes "total") (property (codes "data") body)) ≡ true) where
    abbrev Ends : ℕ → Type 0
    Ends fuel =
        (page : ℕ) (all : List Value) (w : W)
        → length all ≤ bound
        → bound < length all + fuel
        → (o : Outcome (List Value)) × ((fetch_pages fetch fuel page all w).0 ≡ some o)

    push_page-Ends :
        (fuel page : ℕ) (all : List Value) (answer : Value) (o : Outcome (List Value)) (w : W)
        → Ends fuel
        → reaches bound (property (codes "total") answer) ≡ true
        → length all ≤ bound
        → bound < length all + suc fuel
        → (out : Outcome (List Value)) × ((push_page
              (fetch_pages fetch fuel (suc page))
              all
              answer
              o
              w).0
            ≡ some out)
    unfolding push_page
    push_page-Ends fuel page all answer (thrown e) w ends total h k = (thrown e, refl)
    push_page-Ends fuel page all answer (returned []) w ends total h k = (_, refl)
    push_page-Ends fuel page all answer (returned (v ∷ vs)) w ends total h k =
        elim (Bool-cases (reaches (length (all ++ v ∷ vs)) (property (codes "total") answer))) [
          | inl e ↦ (returned (all ++ v ∷ vs), rw e refl)
          | inr e ↦
              let below = reaches-lt _ _ _ total e in
              let longer = length-append all (v ∷ vs) in
              let (out, eq) =
                ends (suc page) (all ++ v ∷ vs) w (omega (arith, below))
                  (omega (arith, k, longer)) in
              (out, rw e eq)
        ]

    after_page-Ends :
        (fuel page : ℕ) (all : List Value) (o : Outcome Value) (w w' : W)
        → Ends fuel
        → (get_page fetch page w).0 ≡ o
        → length all ≤ bound
        → bound < length all + suc fuel
        → (out : Outcome (List Value)) × ((after_page
              (fetch_pages fetch fuel (suc page))
              all
              o
              w').0
            ≡ some out)
    unfolding after_page
    after_page-Ends fuel page all (thrown e) w w' ends eq h k = (thrown e, refl)
    after_page-Ends fuel page all (returned body) w w' ends eq h k =
        push_page-Ends fuel page all _ _ w' ends (bounded page w body eq) h k

    fetch_pages-Ends : (fuel : ℕ) → Ends fuel
    unfolding fetch_pages
    fetch_pages-Ends zero page all w h k = absurd (omega (arith, h, k))
    fetch_pages-Ends (suc fuel) page all w h k =
        after_page-Ends fuel page all _ w _ (fetch_pages-Ends fuel) refl h k

    -- The loop over the pages ends, with a list or an error, if there is a bound on the totals that
    -- the server answers, however they change in between: as many requests as the bound, and one
    -- more, are enough.
    pub fetch_all_videos-ends :
        (w : W) → (o : Outcome (List Value)) × ((fetch_all_videos fetch (suc bound) w).0 ≡ some o)
    unfolding fetch_all_videos
    fetch_all_videos-ends w = fetch_pages-Ends (suc bound) 1 [] w (omega arith) (omega arith)

-- The server's answer to one page of 500 of its videos.
abbrev pub page_answer : List Value → ℕ → Value
page_answer rows page = object (
    field (codes "data")
      (object (
        field (codes "list") (array (of_items (take 500 (drop ((page - 1) * 500) rows))))
          (field (codes "total") (number (integer (length rows))) end)))
      end)

abbrev page_data : List Value → List Value → Value
page_data rows list = object (
    field (codes "list") (array (of_items list))
      (field (codes "total") (number (integer (length rows))) end))

module _ {W : Type 0} (fetch : Request → Async W Response) (rows : List Value)
    (serves : (page : ℕ) (w : W)
      → page * 500 ≤ length rows
      → get_page fetch (suc page) w ≡ (returned (page_answer rows (suc page)), w)) where
  abbrev Complete : ℕ → Type 0
  Complete fuel =
      (page : ℕ) (w : W)
      → page * 500 ≤ length rows
      → length rows < (page + fuel) * 500
      → fetch_pages fetch fuel (suc page) (take (page * 500) rows) w ≡ (some (returned rows), w)
