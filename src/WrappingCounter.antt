-- ===== src/WrappingCounter.antt =====
-- `wrapping_counter.go`.
use native.Mathlib.Nat.{mod-eq_of_lt, add-mod_right}
use go_astits.Base.{
  ℕ, zero, suc, ◌+◌, ◌%◌, ◌≤◌, ◌≡◌, ltb, if◌then◌else◌, arith, ◌∙◌, ap, sym, Bool-cases, inl, inr,
  ltb→lt, ltb→le,
}

pub record WrappingCounter : Type 0 where
  pub wrap_at : ℕ
  pub value : ℕ

unfoldable pub new_wrapping_counter : ℕ → WrappingCounter
new_wrapping_counter wrap_at = record { wrap_at = wrap_at; value = 0 }

-- `get`: the value, and the counter behind it.
unfoldable pub get : WrappingCounter → ℕ × WrappingCounter
get c =
    let next = c.value + 1 in (c.value, record c { value = if ltb c.wrap_at next then 0 else next })

-- The value that `get` gives after `n` other calls.
unfoldable pub get_after : ℕ → WrappingCounter → ℕ
get_after zero c = (get c).0
get_after (suc n) c = get_after n (get c).1

get_after-step :
    (n v w : ℕ) → v ≤ w → get_after n (record { wrap_at = w; value = v }) ≡ (v + n) % (w + 1)
unfolding get_after get
get_after-step zero v w h =
    sym (ap (λ t. t % (w + 1)) {y = v} (omega arith) ∙ mod-eq_of_lt (omega arith))
get_after-step (suc n) v w h = elim (Bool-cases (ltb w (v + 1))) [
  | inl wraps ↦
      let at_end : v + suc n ≡ n + (w + 1) = omega (arith, ltb→lt w (v + 1) wraps) in
      rw (wraps, at_end)
        (get_after-step n 0 w (omega arith)
          ∙ ap (λ t. t % (w + 1)) {x = 0 + n} {y = n} (omega arith)
          ∙ sym (add-mod_right n (w + 1)))
  | inr goes ↦
      let on : v + suc n ≡ (v + 1) + n = omega arith in
      rw (goes, on) (get_after-step n (v + 1) w (ltb→le w (v + 1) goes))
]

-- The call of `get` behind `n` others on a new counter gives the remainder of `n` by the wrap value
-- and one.
pub get_after-new : (n w : ℕ) → get_after n (new_wrapping_counter w) ≡ n % (w + 1)
unfolding new_wrapping_counter
get_after-new n w =
    get_after-step n 0 w (omega arith) ∙ ap (λ t. t % (w + 1)) {x = 0 + n} (omega arith)
