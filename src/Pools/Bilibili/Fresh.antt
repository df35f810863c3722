-- ===== src/Pools/Bilibili/Fresh.antt =====
-- What was done for one pool leaves no trace in the dialogs of another.
use danmaku.Prelude.{
  ℕ, ◌≡◌, ◌≢◌, refl, ap, ◌∙◌, sym, arith, false, Option, none, some, List, ◌∷◌, if◌then◌else◌,
}
use danmaku.Js.Number.{integer}
use danmaku.Api.Types.Pools.{BilibiliPool}
use danmaku.Pools.Dialogs
use danmaku.Pools.Dialogs.{DanmakuDialog, BindingDialog}
use danmaku.Pools.Bilibili.{
  Shown, same_number, same_pool, DanmakuEvent, danmaku_event, danmaku_events, BindingEvent,
  binding_event, binding_events,
}

-- Two pools with different numbers, or a pool and none.
abbrev pub AreOther : Option BilibiliPool → Option BilibiliPool → Type 0
AreOther none none = ⊥
AreOther (some p) (some q) = (m : ℕ) × (n : ℕ) × (p.id ≡ integer m) × (q.id ≡ integer n) × (m ≢ n)
AreOther _ _ = Unit

same_number-apart : (m n : ℕ) → m ≢ n → same_number (integer m) (integer n) ≡ false
unfolding same_number
same_number-apart m n h = ground arith

same_pool-other : (p q : Option BilibiliPool) → AreOther p q → same_pool p q ≡ false
unfolding same_pool
same_pool-other none none h = absurd h
same_pool-other none (some q) h = refl
same_pool-other (some p) none h = refl
same_pool-other (some p) (some q) (m, n, e, e', apart) = rw (e, e') (same_number-apart m n apart)

given_danmaku :
    (pool : Option BilibiliPool) (d : Shown DanmakuDialog)
    → AreOther d.pool pool
    → danmaku_event (DanmakuEvent.pool_given pool) d
      ≡ record { pool = pool; dialog = Dialogs.opened_danmaku }
unfolding danmaku_event
given_danmaku pool d other =
    ap (λ b. record { pool = pool; dialog = if b then d.dialog else Dialogs.opened_danmaku })
      (same_pool-other d.pool pool other)

given_binding :
    (pool : Option BilibiliPool) (d : Shown BindingDialog)
    → AreOther d.pool pool
    → binding_event (BindingEvent.pool_given pool) d
      ≡ record { pool = pool; dialog = Dialogs.opened_binding }
unfolding binding_event
given_binding pool d other =
    ap (λ b. record { pool = pool; dialog = if b then d.dialog else Dialogs.opened_binding })
      (same_pool-other d.pool pool other)

-- Two histories of the danmaku dialog, and of the binding dialog, that end with another pool than the
-- one that is given then, whatever was done in them: from there on both dialogs are the same after
-- either history, whatever is done in them then.
pub given_pool-independent :
    (pool : Option BilibiliPool) (d d' : Shown DanmakuDialog) (b b' : Shown BindingDialog)
    (before before' after : List DanmakuEvent) (binding binding' then_binding : List BindingEvent)
    → AreOther (danmaku_events before d).pool pool
    → AreOther (danmaku_events before' d').pool pool
    → AreOther (binding_events binding b).pool pool
    → AreOther (binding_events binding' b').pool pool
    → (danmaku_events (DanmakuEvent.pool_given pool ∷ after) (danmaku_events before d)
        ≡ danmaku_events (DanmakuEvent.pool_given pool ∷ after) (danmaku_events before' d'))
      × (binding_events (BindingEvent.pool_given pool ∷ then_binding) (binding_events binding b)
          ≡ binding_events
              (BindingEvent.pool_given pool ∷ then_binding)
              (binding_events binding' b'))
unfolding danmaku_events binding_events
given_pool-independent pool d d' b b' before before' after binding binding' then_binding h h' k k' =
    (
      ap (danmaku_events after) (given_danmaku pool _ h ∙ sym (given_danmaku pool _ h')),
      ap (binding_events then_binding) (given_binding pool _ k ∙ sym (given_binding pool _ k')),
    )
