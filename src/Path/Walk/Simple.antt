-- ===== src/Path/Walk/Simple.antt =====
-- The whole walk, and li_path_simplify.
use lighttpd.Prelude.{
  ℕ, suc, ◌+◌, ◌<◌, ◌≤◌, ◌≡◌, refl, sym, ap, subst, ◌∙◌, false, inl, inr, List, Bytes, [], ◌∷◌,
  ◌++◌, arith, append_assoc, length, length-append, set, ◌==◌, Bool-cases, ==_iff,
}
use lighttpd.Path.Simplify.{
  Walk, end_token, close, push_pre, put, walk, skip_spaces, begin, result, path_simplify,
}
use lighttpd.Path.Segments.{IsToken, joined}
use lighttpd.Path.Memory.{length-set, take-set}
use lighttpd.Path.Walk.Tokens.{AreBytes, pre_after, pre_after-append, push_pre_low}
use lighttpd.Path.Walk.Ends.{IsWalk, IsSimple, HasClosed, close-HasClosed, close-IsSimple}

IsToken-append : (t : Bytes) (c : ℕ) → IsToken t → (c == 47) ≡ false → IsToken (t ++ (c ∷ []))
IsToken-append [] c h n = (n, omega arith)
IsToken-append (x ∷ t) c h n = (h.0, IsToken-append t c h.1 n)

AreBytes-append : (t : Bytes) (c : ℕ) → AreBytes t → c < 256 → AreBytes (t ++ (c ∷ []))
AreBytes-append [] c h n = (n, omega arith)
AreBytes-append (x ∷ t) c h n = (h.0, AreBytes-append t c h.1 n)

-- A character that is no slash makes the token longer.
put-IsWalk :
    (segs : List Bytes) (token : Bytes) (w : Walk) (rest c : ℕ)
    → IsWalk segs token w (suc rest)
    → c < 256
    → (c == 47) ≡ false
    → IsWalk segs (token ++ (c ∷ [])) (put c w) rest
put-IsWalk segs token w rest c h b n = record {
  written =
      take-set w.mem w.out c (omega (arith, h.fits))
      ∙ ap (λ x. x ++ (c ∷ [])) h.written
      ∙ append_assoc (joined segs) (47 ∷ token) (c ∷ []);
  slash_at = h.slash_at;
  fits = omega (arith, h.fits, length-set w.mem w.out c);
  are_segments = h.are_segments;
  is_token = IsToken-append token c h.is_token n;
  are_bytes = AreBytes-append token c h.are_bytes b;
  pre_is = (
    h.pre_is.0,
    h.pre_is.1,
    ap (λ x. push_pre x c) h.pre_is.2 ∙ sym (pre_after-append h.pre_is.0 token c),
  );
}

-- A slash closes the token and begins another.
put_slash-IsWalk :
    (w : Walk) (rest : ℕ)
    → w.out + suc rest ≤ length w.mem
    → (c : HasClosed w) → IsWalk c.0 [] (put 47 (close false w)) rest
unfolding pre_after
put_slash-IsWalk w rest f (segs, a, e, n, l) = record {
  written =
      take-set w.mem (end_token false w) 47 (omega (arith, f, l)) ∙ ap (λ x. x ++ (47 ∷ [])) e;
  slash_at = n;
  fits = omega (arith, f, l, length-set w.mem (end_token false w) 47);
  are_segments = a;
  is_token = omega arith;
  are_bytes = omega arith;
  pre_is = (push_pre w.pre 47, push_pre_low w.pre 47 (omega arith), refl);
}

walk-IsSimple :
    (cs : Bytes) (segs : List Bytes) (token : Bytes) (w : Walk)
    → AreBytes cs
    → IsWalk segs token w (length cs)
    → IsSimple (result (walk cs w))
unfolding walk
walk-IsSimple [] segs token w b h = close-IsSimple segs token w 0 h
walk-IsSimple (c ∷ cs) segs token w b h =
    let closed = close-HasClosed segs token w (suc (length cs)) h in
    elim (Bool-cases (c == 0)) [
      | inl z ↦ rw z (close-IsSimple segs token w (suc (length cs)) h)
      | inr z ↦ elim (Bool-cases (c == 47)) [
        | inl e ↦
            rw (z, e)
              (subst (λ x. IsSimple (result (walk cs (put x (close false w)))))
                (sym ((==_iff c 47).0 e))
                (walk-IsSimple cs closed.0 [] (put 47 (close false w)) b.1
                  (put_slash-IsWalk w (length cs) h.fits closed)))
        | inr e ↦
            rw (z, e)
              (walk-IsSimple cs segs (token ++ (c ∷ [])) (put c w) b.1
                (put-IsWalk segs token w (length cs) c h b.0 e))
      ]
    ]

skip_spaces-AreBytes :
    (path : Bytes)
    → AreBytes path
    → AreBytes (skip_spaces path) × (length (skip_spaces path) ≤ length path)
unfolding skip_spaces
skip_spaces-AreBytes [] h = (omega arith, omega arith)
skip_spaces-AreBytes (c ∷ cs) h =
    let (b, l) = skip_spaces-AreBytes cs h.1 in
    elim (Bool-cases (c == 32)) [
      | inl e ↦ rw e (b, omega (arith, l))
      | inr e ↦ rw e (h, omega arith)
    ]

begin-IsSimple :
    (c : ℕ) (cs path : Bytes)
    → AreBytes (c ∷ cs)
    → length (c ∷ cs) ≤ length path
    → IsSimple (result (walk cs (begin c (path ++ (0 ∷ [])))))
unfolding pre_after
begin-IsSimple c cs path b f =
    let mem = path ++ (0 ∷ []) in
    let l = length-append path (0 ∷ []) in
    let first = take-set mem 0 47 (omega (arith, l)) in
    elim (Bool-cases (c == 47)) [
      | inl e ↦
          let w : Walk = record { mem = set mem 0 47; out = 1; slash = 0; pre = 47 } in
          let h : IsWalk [] [] w (length cs) = record {
            written = first;
            slash_at = refl;
            fits = omega (arith, f, l, length-set mem 0 47);
            are_segments = omega arith;
            is_token = omega arith;
            are_bytes = omega arith;
            pre_is = (47, refl, refl);
          } in
          rw e (walk-IsSimple cs [] [] w b.1 h)
      | inr e ↦
          let w : Walk = record {
            mem = set (set mem 0 47) 1 c;
            out = 2;
            slash = 0;
            pre = push_pre 47 c;
          } in
          let k = length-set mem 0 47 in
          let h : IsWalk [] (c ∷ []) w (length cs) = record {
            written =
                take-set (set mem 0 47) 1 c (omega (arith, f, l, k))
                ∙ ap (λ x. x ++ (c ∷ [])) first;
            slash_at = refl;
            fits = omega (arith, f, l, k, length-set (set mem 0 47) 1 c);
            are_segments = omega arith;
            is_token = (e, omega arith);
            are_bytes = (b.0, omega arith);
            pre_is = (47, refl, refl);
          } in
          rw e (walk-IsSimple cs [] (c ∷ []) w b.1 h)
    ]

no_path : IsSimple (47 ∷ 0 ∷ [])
no_path = ([], 0 ∷ [], omega arith, ((refl, omega arith), inr refl), refl)

-- For every path of bytes li_path_simplify leaves a path that begins with a slash, and of which the
-- segments are neither empty nor "." nor "..", except that the last one may be empty.
pub path_simplify-IsSimple : (path : Bytes) → AreBytes path → IsSimple (path_simplify path)
unfolding path_simplify
path_simplify-IsSimple path h = from (skip_spaces path) refl
  where
    from : (s : Bytes) → skip_spaces path ≡ s → IsSimple (path_simplify path)
    from [] e = rw (e, path_simplify) no_path
    from (c ∷ cs) e =
        let (b, l) =
          subst (λ x. AreBytes x × (length x ≤ length path)) e (skip_spaces-AreBytes path h) in
        elim (Bool-cases (c == 0)) [
          | inl z ↦ rw (e, path_simplify, z) no_path
          | inr z ↦ rw (e, path_simplify, z) (begin-IsSimple c cs path b l)
        ]
