-- ===== src/Pools/Dialogs/Keywords.antt =====
-- The pool that a keyword rule is sent for is one that was offered.
use danmaku.Prelude.{
  ℕ, ◌<◌, ◌≡◌, ◌⊎◌, inl, inr, refl, sym, ap, ◌∙◌, arith, false, List, [], ◌∷◌, ◌==◌, if◌then◌else◌,
}
use mathlib.Core.Path.{subst}
use mathlib.Core.List.{Memᴰ}
use danmaku.Js.Text.{Text, text_eq}
use danmaku.Js.Number.{Number, integer, to_number}
use danmaku.Js.Print.{number_text}
use danmaku.Js.Print.RoundTrip.{IsNumeral}
use danmaku.Js.Print.Whole.{number_text-IsNumeral, to_number-number_text, exponent_from}
use danmaku.Js.Value.{Value, null, number}
use danmaku.Widgets.Select.{SelectOption}
use danmaku.Widgets.Select.Chosen.{Picks, value_changed_source}
use danmaku.Pools.Dialogs.{global_scope, scope_options, pool_options, scope_value}

-- A numeral does not begin as "global" does.
not_global : (n : ℕ) (s : Text) → IsNumeral n s → text_eq s global_scope ≡ false
unfolding text_eq
not_global n [] h = absurd (omega (arith, h.some_digit))
not_global n (c ∷ s) h =
    let (low, high) = h.digits.0 in
    let differs : (c == b'g') ≡ false = ground arith in rw differs refl

number_text-not_global :
    (n : ℕ) → n < exponent_from → text_eq (number_text (integer n)) global_scope ≡ false
number_text-not_global n h = not_global n _ (number_text-IsNumeral n h)

module _ {P : Type 0} (id : P → Number) (label : P → Text) where
  -- The number of a pool is a whole number that String writes with no exponent.
  abbrev pub Numbered : List P → Type 0
  Numbered pools =
      (pool : P) → Memᴰ pool pools → (n : ℕ) × (id pool ≡ integer n) × (n < exponent_from)

  -- An option of the pools is one of them, by its number.
  pub pool_option :
      (pools : List P) (option : SelectOption)
      → Memᴰ option (pool_options id label pools)
      → (pool : P) × Memᴰ pool pools × (option.value ≡ number_text (id pool))
  unfolding pool_options
  pool_option [] option m = elim m [ ]
  pool_option (pool ∷ pools) option (Memᴰ.head e) = (pool, Memᴰ.head refl, ap (λ o. o.value) e)
  pool_option (pool ∷ pools) option (Memᴰ.tail m) =
      let (p, m', e) = pool_option pools option m in (p, Memᴰ.tail m', e)

  -- What the rule of a scope applies to: all pools, or one of the pools.
  abbrev pub Applies : List P → Text → Value → Type 0
  Applies pools scope v =
      ((scope ≡ global_scope) × (v ≡ null))
      ⊎ ((pool : P) × Memᴰ pool pools × (scope ≡ number_text (id pool)) × (v ≡ number (id pool)))

  global-Applies :
      (pools : List P) (scope : Text)
      → scope ≡ global_scope
      → Applies pools scope (scope_value scope)
  unfolding scope_value
  global-Applies pools scope e = inl (e, ap scope_value e)

  pool-Applies :
      (pools : List P) (pool : P) (scope : Text)
      → Numbered pools
      → Memᴰ pool pools
      → scope ≡ number_text (id pool)
      → Applies pools scope (scope_value scope)
  unfolding scope_value
  pool-Applies pools pool scope numbered m e =
      let (n, is, small) = numbered pool m in
      let written : scope ≡ number_text (integer n) = e ∙ ap number_text is in
      let other : text_eq scope global_scope ≡ false =
        subst (λ s. text_eq s global_scope ≡ false) (sym written)
          (number_text-not_global n small) in
      let back : to_number scope ≡ id pool =
        ap to_number written ∙ to_number-number_text n small ∙ sym is in
      inr
        (pool, m, e, ap (λ b. if b then null else number (to_number scope)) other ∙ ap number back)

  -- Provided that the pools have whole numbers below 10 ^ 21: a keyword rule of the scope that was
  -- chosen, however it was, is sent for all pools (`null`) exactly where "global" is chosen, else for
  -- the number of one of the pools, the one whose option was chosen.
  pub scope_value-Applies :
      (pools : List P) (scope : Text)
      → Numbered pools
      → Picks (scope_options id label pools) global_scope scope
      → Applies pools scope (scope_value scope)
  unfolding scope_options
  scope_value-Applies pools scope numbered c =
      elim (value_changed_source (scope_options id label pools) global_scope scope c) [
        | inl e ↦ global-Applies pools scope e
        | inr (option, Memᴰ.head e, same) ↦
            global-Applies pools scope (sym same ∙ ap (λ o. o.value) e)
        | inr (option, Memᴰ.tail m, same) ↦
            let (pool, m', e) = pool_option pools option m in
            pool-Applies pools pool scope numbered m' (sym same ∙ e)
      ]
