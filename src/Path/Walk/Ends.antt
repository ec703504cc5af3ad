-- ===== src/Path/Walk/Ends.antt =====
-- What is left of the path when a token ends.
use lighttpd.Prelude.{
  ℕ, suc, ◌+◌, ◌%◌, ◌≤◌, ◌≡◌, refl, sym, ap, ◌∙◌, Bool, true, false, ◌⊎◌, inl, inr, List, Bytes, [],
  ◌∷◌, ◌++◌, arith, append_assoc, length, length-append, length-take, take,
}
use lighttpd.Path.Simplify.{Walk, step_over, drop_segment, end_token}
use lighttpd.Path.Segments.{IsToken, is_plain, AreSegments, joined}
use lighttpd.Path.Memory.{take-part, drop_segment-joined}
use lighttpd.Path.Walk.Tokens.{AreBytes, pre_after, EndsAs, token-EndsAs}

-- Whole segments and a token have been written, and as much memory is left as there is to read.
pub record IsWalk (segs : List Bytes) (token : Bytes) (w : Walk) (rest : ℕ) : Type 0 where
  pub written : take w.out w.mem ≡ joined segs ++ (47 ∷ token)
  pub slash_at : w.slash ≡ length (joined segs)
  pub fits : w.out + rest ≤ length w.mem
  pub are_segments : AreSegments segs
  pub is_token : IsToken token
  pub are_bytes : AreBytes token
  pub pre_is : (p : ℕ) × (p % 256 ≡ 47) × (w.pre ≡ pre_after p token)

-- The last segment, which may be empty
abbrev pub IsEnd : Bytes → Type 0
IsEnd t = IsToken t × ((t ≡ []) ⊎ (is_plain t ≡ true))

abbrev pub HasClosed : Walk → Type 0
HasClosed w =
    (segs : List Bytes) × AreSegments segs
    × (take (end_token false w) w.mem ≡ joined segs)
    × (end_token false w ≡ length (joined segs))
    × (end_token false w ≤ w.out)

abbrev pub IsSimple : Bytes → Type 0
IsSimple path =
    (segs : List Bytes) × (t : Bytes) × AreSegments segs
    × IsEnd t
    × (path ≡ joined segs ++ (47 ∷ t))

abbrev HasStepped : Walk → Type 0
HasStepped w =
    (segs : List Bytes) × (rest : Bytes) × AreSegments segs
    × (take w.out w.mem ≡ joined segs ++ (47 ∷ rest))
    × ((b : Bool) → end_token b w ≡ step_over b (length (joined segs)))

module _ (segs : List Bytes) (token : Bytes) (w : Walk) (rest : ℕ)
    (h : IsWalk segs token w rest) where
  out_at : w.out ≡ w.slash + suc (length token)
  out_at = omega (
    arith,
    ap length h.written,
    length-append (joined segs) (47 ∷ token),
    length-take w.out w.mem,
    h.fits,
    h.slash_at,
  )

  ends : EndsAs w token
  ends = token-EndsAs w h.pre_is.0 h.pre_is.1 token h.are_bytes h.is_token out_at h.pre_is.2

  stepped : ((b : Bool) → end_token b w ≡ step_over b w.slash) → HasStepped w
  stepped e = (segs, token, h.are_segments, h.written, λ b. e b ∙ ap (step_over b) h.slash_at)

dropped :
    (segs : List Bytes) (token : Bytes) (w : Walk) (rest : ℕ)
    → IsWalk segs token w rest
    → ((b : Bool) → end_token b w ≡ step_over b (drop_segment w.mem w.slash))
    → HasStepped w
unfolding drop_segment
dropped [] token w rest h e = (
  [],
  token,
  omega arith,
  h.written,
  λ b. e b ∙ ap (λ x. step_over b (drop_segment w.mem x)) h.slash_at,
)
dropped (s ∷ ss) token w rest h e =
    let d = drop_segment-joined w.out w.mem ss s (47 ∷ token) h.written h.are_segments.0 in
    (
      ss,
      s ++ (47 ∷ token),
      h.are_segments.2,
      h.written ∙ append_assoc (joined ss) (47 ∷ s) (47 ∷ token),
      λ b. e b ∙ ap (λ x. step_over b (drop_segment w.mem x)) h.slash_at ∙ ap (step_over b) d,
    )

stepped-HasClosed : (w : Walk) → w.out ≤ length w.mem → HasStepped w → HasClosed w
stepped-HasClosed w f (segs, rest, a, e, n) =
    let l = length-append (joined segs) (47 ∷ rest) in
    let t = length-take w.out w.mem in
    (
      segs,
      a,
      ap (λ x. take x w.mem) (n false) ∙ take-part w.out w.mem (joined segs) (47 ∷ rest) e,
      n false,
      omega (arith, ap length e, l, t, n false),
    )

stepped-IsSimple : (w : Walk) → HasStepped w → IsSimple (take (end_token true w) w.mem)
stepped-IsSimple w (segs, rest, a, e, n) =
    let more = joined segs ++ (47 ∷ []) in
    let l : suc (length (joined segs)) ≡ length more =
      omega (arith, length-append (joined segs) (47 ∷ [])) in
    let whole = e ∙ sym (append_assoc (joined segs) (47 ∷ []) rest) in
    (
      segs,
      [],
      a,
      (omega arith, inl refl),
      ap (λ x. take x w.mem) (n true ∙ l) ∙ take-part w.out w.mem more rest whole,
    )

module _ (segs : List Bytes) (token : Bytes) (w : Walk) (rest : ℕ)
    (h : IsWalk segs token w rest) where
  pub close-HasClosed : HasClosed w
  close-HasClosed = elim (ends segs token w rest h) [
    | inl p ↦
        let l = length-append (joined segs) (47 ∷ token) in
        let o = out_at segs token w rest h in
        let e : w.out ≡ length (joined (token ∷ segs)) = omega (arith, l, o, h.slash_at) in
        (
          token ∷ segs,
          (h.is_token, p.0, h.are_segments),
          ap (λ x. take x w.mem) (p.1 false) ∙ h.written,
          p.1 false ∙ e,
          omega (arith, p.1 false),
        )
    | inr (inl e) ↦ stepped-HasClosed w (omega (arith, h.fits)) (stepped segs token w rest h e)
    | inr (inr e) ↦ stepped-HasClosed w (omega (arith, h.fits)) (dropped segs token w rest h e)
  ]

  pub close-IsSimple : IsSimple (take (end_token true w) w.mem)
  close-IsSimple = elim (ends segs token w rest h) [
    | inl p ↦ (
      segs,
      token,
      h.are_segments,
      (h.is_token, inr p.0),
      ap (λ x. take x w.mem) (p.1 true) ∙ h.written,
    )
    | inr (inl e) ↦ stepped-IsSimple w (stepped segs token w rest h e)
    | inr (inr e) ↦ stepped-IsSimple w (dropped segs token w rest h e)
  ]
