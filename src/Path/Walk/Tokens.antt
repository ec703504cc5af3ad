-- ===== src/Path/Walk/Tokens.antt =====
-- Which token the tests on `toklen` and `pre` see.
use lighttpd.Prelude.{
  ℕ, suc, ◌+◌, ◌-◌, ◌%◌, ◌<◌, ◌≤◌, ◌≡◌, refl, sym, ap, subst, ◌∙◌, Bool, true, false, ◌&&◌, ◌⊎◌,
  inl, inr, Bytes, [], ◌∷◌, ◌++◌, arith, length, ◌==◌, Bool-cases, if◌then◌else◌,
}
use lighttpd.Path.Simplify.{Walk, push_pre, step_over, drop_segment, end_token}
use lighttpd.Path.Segments.{IsToken, is_plain}

abbrev pub AreBytes : Bytes → Type 0
AreBytes [] = 0 ≤ 0
AreBytes (c ∷ t) = (c < 256) × AreBytes t

-- `pre` after the characters of the token
unfoldable pub pre_after : ℕ → Bytes → ℕ
pre_after p [] = p
pre_after p (c ∷ t) = pre_after (push_pre p c) t

pub pre_after-append :
    (p : ℕ) (t : Bytes) (c : ℕ) → pre_after p (t ++ (c ∷ [])) ≡ push_pre (pre_after p t) c
unfolding pre_after
pre_after-append p [] c = refl
pre_after-append p (x ∷ t) c = pre_after-append (push_pre p x) t c

pub push_pre_low : (p c : ℕ) → c < 256 → push_pre p c % 256 ≡ c
push_pre_low p c h = ground arith

push_pre_dot : (p c : ℕ) → c < 256 → (p % 256 == 47) ≡ false → (push_pre p c == 12078) ≡ false
push_pre_dot p c h n = ground arith

-- Where the character before is no slash, the token is not ".".
pre_after_dot :
    (p c : ℕ) (t : Bytes)
    → AreBytes (c ∷ t)
    → IsToken (c ∷ t)
    → (p % 256 == 47) ≡ false
    → (pre_after p (c ∷ t) == 12078) ≡ false
unfolding pre_after
pre_after_dot p c [] b h n = push_pre_dot p c b.0 n
pre_after_dot p c (d ∷ t) b h n =
    let l = push_pre_low p c b.0 in
    pre_after_dot (push_pre p c) d t b.1 h.1 (subst (λ x. (x == 47) ≡ false) (sym l) h.0)

-- How the token ends: it stays, it is dropped, or it is dropped with the segment before.
abbrev pub EndsAs : Walk → Bytes → Type 0
EndsAs w token =
    ((is_plain token ≡ true) × ((b : Bool) → end_token b w ≡ w.out))
    ⊎ (((b : Bool) → end_token b w ≡ step_over b w.slash)
        ⊎ ((b : Bool) → end_token b w ≡ step_over b (drop_segment w.mem w.slash)))

one_dot : (p a : ℕ) → p % 256 ≡ 47 → (a == 46) ≡ true → (push_pre p a == 12078) ≡ true
one_dot p a h e = ground arith

no_dot : (p a : ℕ) → p % 256 ≡ 47 → a < 256 → (a == 46) ≡ false → (push_pre p a == 12078) ≡ false
no_dot p a h l e = ground arith

two_dots :
    (p a b : ℕ) → (a == 46) ≡ true → (b == 46) ≡ true → (push_pre (push_pre p a) b == 11822) ≡ true
two_dots p a b e f = ground arith

not_two_dots :
    (p a b : ℕ)
    → a < 256
    → b < 256
    → ((a == 46) && (b == 46)) ≡ false
    → (push_pre (push_pre p a) b == 11822) ≡ false
not_two_dots p a b h l e = ground arith

module _ (w : Walk) (p : ℕ) (dash : p % 256 ≡ 47) where
  -- The token is empty or "."; it is ".."; or it stays.
  nothing_new : w.out ≡ w.slash + 1 → (b : Bool) → end_token b w ≡ step_over b w.slash
  unfolding end_token
  nothing_new e b =
      let l3 : (w.out - w.slash == 3) ≡ false = ground (arith, e) in
      let l1 : (w.out - w.slash == 1) ≡ true = ground (arith, e) in rw (l3, l1)

  one_char : (a : ℕ) → a < 256 → w.out ≡ w.slash + 2 → w.pre ≡ push_pre p a → EndsAs w (a ∷ [])
  unfolding end_token
  one_char a h e q =
      let l3 : (w.out - w.slash == 3) ≡ false = ground (arith, e) in
      let l1 : (w.out - w.slash == 1) ≡ false = ground (arith, e) in
      elim (Bool-cases (a == 46)) [
        | inl d ↦
            let f = ap (λ x. x == 12078) q ∙ one_dot p a dash d in inr (inl (λ b. rw (l3, l1, f)))
        | inr d ↦
            let f = ap (λ x. x == 12078) q ∙ no_dot p a dash h d in inl (rw d, λ b. rw (l3, l1, f))
      ]

  two_chars :
      (a c : ℕ)
      → a < 256
      → c < 256
      → (a == 47) ≡ false
      → w.out ≡ w.slash + 3
      → w.pre ≡ push_pre (push_pre p a) c
      → EndsAs w (a ∷ c ∷ [])
  unfolding end_token
  two_chars a c h g n e q =
      let l3 : (w.out - w.slash == 3) ≡ true = ground (arith, e) in
      let l1 : (w.out - w.slash == 1) ≡ false = ground (arith, e) in
      elim (Bool-cases ((a == 46) && (c == 46))) [
        | inl d ↦
            let f =
              ap (λ x. x == 11822) q ∙ two_dots p a c (ground (arith, d)) (ground (arith, d)) in
            inr (inr (λ b. rw (l3, f)))
        | inr d ↦
            let f = ap (λ x. x == 11822) q ∙ not_two_dots p a c h g d in
            let l = push_pre_low p a h in
            let k =
              ap (λ x. x == 12078) q
              ∙ push_pre_dot (push_pre p a) c g (subst (λ x. (x == 47) ≡ false) (sym l) n) in
            inl (plain_two a c d, λ b. rw (l3, f, l1, k))
      ]
    where
      plain_two : (a c : ℕ) → ((a == 46) && (c == 46)) ≡ false → is_plain (a ∷ c ∷ []) ≡ true
      plain_two a c d = pick (a == 46) (c == 46) d
        where
          pick :
              (x y : Bool)
              → (x && y) ≡ false
              → (if x then (if y then false else true) else true) ≡ true
          pick true true d = sym d
          pick true false d = refl
          pick false y d = refl

  more_chars :
      (a c d : ℕ) (t : Bytes)
      → AreBytes (a ∷ c ∷ d ∷ t)
      → IsToken (a ∷ c ∷ d ∷ t)
      → w.out ≡ w.slash + suc (length (a ∷ c ∷ d ∷ t))
      → w.pre ≡ pre_after p (a ∷ c ∷ d ∷ t)
      → EndsAs w (a ∷ c ∷ d ∷ t)
  unfolding end_token pre_after
  more_chars a c d t b h e q =
      let l3 : (w.out - w.slash == 3) ≡ false = ground (arith, e) in
      let l1 : (w.out - w.slash == 1) ≡ false = ground (arith, e) in
      let l = push_pre_low p a b.0 in
      let k =
        ap (λ x. x == 12078) q
        ∙ pre_after_dot (push_pre p a) c (d ∷ t) b.1 h.1
            (subst (λ x. (x == 47) ≡ false) (sym l) h.0) in
      inl (refl, λ b. rw (l3, l1, k))

  pub token-EndsAs :
      (token : Bytes)
      → AreBytes token
      → IsToken token
      → w.out ≡ w.slash + suc (length token)
      → w.pre ≡ pre_after p token
      → EndsAs w token
  unfolding pre_after
  token-EndsAs [] b h e q = inr (inl (nothing_new (omega (arith, e))))
  token-EndsAs (a ∷ []) b h e q = one_char a b.0 (omega (arith, e)) q
  token-EndsAs (a ∷ c ∷ []) b h e q = two_chars a c b.0 b.1.0 h.0 (omega (arith, e)) q
  token-EndsAs (a ∷ c ∷ d ∷ t) b h e q = more_chars a c d t b h e q
