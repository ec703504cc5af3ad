-- ===== src/Throttle/Answer.antt =====
-- What li_throttle_query answers.
use lighttpd.Prelude.{
  ℕ, ◌+◌, ◌%◌, ◌<◌, ◌≤◌, ◌≡◌, refl, true, false, some, inl, inr, ◌⊎◌, arith, Bool-cases, leb,
  leb→le,
}
use lighttpd.Throttle.Gint.{gint_zero, gint_of, guint_of}
use lighttpd.Throttle.Defs.{ThrottleState}
use lighttpd.Throttle.Query.{max_step, overload, magazine_available, throttle_answer}

-- Either nothing is granted, the request is queued and asked to be called, and its magazine is at
-- most -8K, or n bytes are granted, or fewer than n: all of the magazine and 8K. 2147483648 is 0.
abbrev pub IsAnswer : ℕ → ℕ → ThrottleState → ℕ → Type 0
IsAnswer n granted s cb =
    (granted ≤ n)
    × (((granted ≡ 0)
          × (s.queued ≡ true)
          × (s.notify_callback ≡ some cb)
          × (s.interested ≡ n)
          × (magazine_available s ≤ gint_zero))
        ⊎ ((0 < n → 0 < granted)
            × (gint_zero + granted ≤ magazine_available s)
            × ((granted ≡ n) ⊎ (gint_zero + granted ≡ magazine_available s))))

pub mod_bound : (n : ℕ) → n % 4294967296 < 4294967296
mod_bound n = omega arith

pub all_granted :
    (n x : ℕ) → n ≤ max_step → x < 4294967296 → leb (gint_of n) x ≡ true → gint_zero + n ≤ x
all_granted n x h b e = ground arith

part_granted :
    (n x : ℕ)
    → n ≤ max_step
    → x < 4294967296
    → leb x gint_zero ≡ false
    → leb (gint_of n) x ≡ false
    → (guint_of x ≤ n) × (0 < guint_of x) × (gint_zero + guint_of x ≡ x)
part_granted n x h b e f = (ground arith, ground arith, ground arith)

pub throttle_answer-IsAnswer :
    (n cb user_data : ℕ) (s : ThrottleState)
    → n ≤ max_step
    → let (granted, s') = throttle_answer n cb user_data s in IsAnswer n granted s' cb
unfolding throttle_answer
throttle_answer-IsAnswer n cb user_data s h =
    let b = mod_bound (s.magazine + gint_of overload + 2147483648) in
    elim (Bool-cases (leb (magazine_available s) gint_zero)) [
      | inl e ↦ rw e (omega arith, inl (refl, refl, refl, refl, leb→le _ _ e))
      | inr e ↦ elim (Bool-cases (leb (gint_of n) (magazine_available s))) [
        | inl f ↦
            rw (e, f)
              (omega arith, inr (λ p. p, all_granted n (magazine_available s) h b f, inl refl))
        | inr f ↦
            let (x, y, z) = part_granted n (magazine_available s) h b e f in
            rw (e, f) (x, inr (λ p. y, omega (arith, z), inr z))
      ]
    ]
