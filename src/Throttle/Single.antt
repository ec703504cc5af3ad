-- ===== src/Throttle/Single.antt =====
-- The magazine of a request by itself, between 0 and its burst.
use lighttpd.Prelude.{
  ℕ, ◌+◌, ◌*◌, ◌/◌, ◌%◌, ◌<◌, ◌≤◌, ◌≡◌, false, inl, inr, arith, Bool-cases, ltb, leb, ◌==◌,
}
use lighttpd.Throttle.Gint.{gint_zero, gint_of, guint_of, add_gint, sub_gint, sub_guint}
use lighttpd.Throttle.Defs.{ThrottleState, World}
use lighttpd.Throttle.Rearm.{granularity}
use lighttpd.Throttle.Query.{
  magazine_available, single_rearm, ask_single, move_tokens, throttle_answer,
}

abbrev pub InBurst : ℕ → ℕ → Type 0
InBurst magazine burst =
    (gint_zero ≤ magazine) × (magazine ≤ gint_zero + burst) × (burst < 2147483648)

abbrev pub IsFilled : ThrottleState → Type 0
IsFilled s = InBurst s.single_magazine s.single_burst

full : (burst : ℕ) → burst < 2147483648 → InBurst (gint_of burst) burst
full burst h = (omega arith, omega arith, h)

filled :
    (m burst fill : ℕ)
    → InBurst m burst
    → fill < 4294967296
    → ltb (sub_guint burst (guint_of m)) fill ≡ false
    → InBurst (add_gint m (gint_of fill)) burst
filled m burst fill (a, b, c) h e = (ground (arith, a, b, c, e), ground (arith, a, b, c, e), c)

drained : (m burst f : ℕ) → InBurst m burst → gint_zero ≤ f → f ≤ m → InBurst (sub_gint m f) burst
drained m burst f (a, b, c) h l = (omega arith, omega arith, c)

single_rearm-IsFilled : (now : ℕ) (s : ThrottleState) → IsFilled s → IsFilled (single_rearm now s)
unfolding single_rearm
single_rearm-IsFilled now s h =
    let d = sub_guint now s.single_last_rearm in
    let fill = s.single_rate * d / 1000 % 4294967296 in
    elim (Bool-cases (leb granularity d)) [
      | inr e ↦ rw e h
      | inl e ↦
          elim (Bool-cases (ltb (sub_guint s.single_burst (guint_of s.single_magazine)) fill)) [
            | inl f ↦ rw (e, f) (full s.single_burst h.2)
            | inr f ↦ rw (e, f) (filled s.single_magazine s.single_burst fill h (omega arith) f)
          ]
    ]

single_rearm-rate : (now : ℕ) (s : ThrottleState) → (single_rearm now s).single_rate ≡ s.single_rate
unfolding single_rearm
single_rearm-rate now s =
    let d = sub_guint now s.single_last_rearm in
    let fill = s.single_rate * d / 1000 % 4294967296 in
    elim (Bool-cases (leb granularity d)) [
      | inr e ↦ rw e
      | inl e ↦
          elim (Bool-cases (ltb (sub_guint s.single_burst (guint_of s.single_magazine)) fill)) [
            | inl f ↦ rw (e, f)
            | inr f ↦ rw (e, f)
          ]
    ]

-- What is asked for is there.
abbrev pub IsReady : ℕ × ThrottleState → Type 0
IsReady (fill, s) = IsFilled s × ((s.single_rate == 0) ≡ false → fill ≤ s.single_magazine)

pub ask_single-IsReady : (now n : ℕ) (s : ThrottleState) → IsFilled s → IsReady (ask_single now n s)
unfolding ask_single
ask_single-IsReady now n s h = elim (Bool-cases (s.single_rate == 0)) [
  | inl e ↦ rw e (h, λ x. absurd (ground (arith, e, x)))
  | inr e ↦ rw e (single_rearm-IsFilled now s h, λ x. omega arith)
]

pub move_tokens-IsFilled :
    (f : ℕ) (s : ThrottleState) (w : World) (fill : ℕ)
    → f ≤ fill
    → IsReady (fill, s)
    → IsFilled (move_tokens f s w).0
unfolding move_tokens
move_tokens-IsFilled f s w fill l (h, r) = elim (Bool-cases (ltb gint_zero f)) [
  | inr e ↦ rw e h
  | inl e ↦ elim (Bool-cases (s.single_rate == 0)) [
    | inl z ↦ rw (e, z) h
    | inr z ↦
        let p : gint_zero ≤ f = ground (arith, e) in
        let q : f ≤ s.single_magazine = omega (arith, l, r z) in
        rw (e, z) (drained s.single_magazine s.single_burst f h p q)
  ]
]

pub throttle_answer-IsFilled :
    (n cb user_data : ℕ) (s : ThrottleState)
    → IsFilled s
    → IsFilled (throttle_answer n cb user_data s).1
unfolding throttle_answer
throttle_answer-IsFilled n cb user_data s h =
    elim (Bool-cases (leb (magazine_available s) gint_zero)) [
      | inl e ↦ rw e h
      | inr e ↦ elim (Bool-cases (leb (gint_of n) (magazine_available s))) [
        | inl f ↦ rw (e, f) h
        | inr f ↦ rw (e, f) h
      ]
    ]
