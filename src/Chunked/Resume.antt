-- ===== src/Chunked/Resume.antt =====
-- The decoder's answer does not depend on how its input arrives.
use lighttpd.Prelude.{
  ℕ, zero, suc, ◌≤◌, ◌≡◌, ◌⊎◌, inl, inr, refl, sym, ap, subst, ◌∙◌, Bool, true, false, ◌||◌, some,
  Bytes, [], ◌∷◌, ◌++◌, arith,
}
use lighttpd.Prelude.Int.{ℤ, pos, negsuc}
use lighttpd.Chunked.Decode.{
  ParseState, new_chunklen, copying, eof, failed, State, Input, Output, Decoded, decode,
}
use lighttpd.Chunked.Feed.{at, stop, bite, Bite-cases, feed-stop, feed-go, feed, answer, finish}
use lighttpd.Chunked.Feed.Loop.{decode-feed, start_chunk, stop_eof}

-- Feeding stops where it stands, and goes on from there.
pub feed-append :
    (xs ys : Bytes) (s : State) (out : Bytes)
    → let f = feed xs s out in feed (xs ++ ys) s out ≡ feed (f.rest ++ ys) f.state f.content
unfolding feed
feed-append [] ys s out = refl
feed-append (c ∷ xs) ys s out = elim (Bite-cases (bite s.parse_state s.cur_chunklen c)) [
  | inl e ↦ rw (feed-stop c xs s out e)
  | inr (t, o, e) ↦
      rw (feed-go c xs s t out o e)
        (feed-go c (xs ++ ys) s t out o e ∙ feed-append xs ys t (out ++ o))
]

-- What is not eaten was refused by one of three states.
abbrev Refuses : ParseState → ℤ → Type 0
Refuses eof n = 0 ≤ 0
Refuses failed n = 0 ≤ 0
Refuses copying (negsuc n) = 0 ≤ 0
Refuses _ n = ⊥

bite-stop : (p : ParseState) (n : ℤ) (c : ℕ) → bite p n c ≡ stop → Refuses p n
unfolding bite
bite-stop eof n c e = omega arith
bite-stop failed n c e = omega arith
bite-stop copying (pos zero) c e = cc
bite-stop copying (pos (suc n)) c e = cc
bite-stop copying (negsuc n) c e = omega arith
bite-stop p n c e = cc

feed-rest :
    (xs : Bytes) (s : State) (out : Bytes)
    → let f = feed xs s out in (f.rest ≡ []) ⊎ Refuses f.state.parse_state f.state.cur_chunklen
unfolding feed
feed-rest [] s out = inl refl
feed-rest (c ∷ xs) s out = elim (Bite-cases (bite s.parse_state s.cur_chunklen c)) [
  | inl e ↦ rw (feed-stop c xs s out e) (inr (bite-stop s.parse_state s.cur_chunklen c e))
  | inr (t, o, e) ↦ rw (feed-go c xs s t out o e) (feed-rest xs t (out ++ o))
]

abbrev open_input : Bytes → Input
open_input bs = record { bytes = bs; is_closed = false; broken = false }

-- What a later call returns that goes on from the result of the first one, with `ys` behind.
abbrev resumed : Bool → Bytes → Decoded → Decoded
resumed ended ys d = finish ended d.out.is_closed (feed (d.rest ++ ys) d.state d.out.bytes)

resume :
    (ended : Bool) (ys : Bytes) (p : ParseState) (n : ℤ) (content rest : Bytes) (c : Bool)
    → (rest ≡ []) ⊎ Refuses p n
    → (answer false c p n content rest).success ≡ true
    → resumed ended ys (answer false c p n content rest)
      ≡ finish ended c (feed (rest ++ ys) (at p n) content)
unfolding answer finish
resume ended ys new_chunklen n content rest c h e = elim h [
  | inl r ↦ rw r (start_chunk ended ys n c content)
  | inr r ↦ absurd r
]
resume ended ys copying (pos zero) content rest c h e = elim h [ inl r ↦ rw r | inr r ↦ absurd r ]
resume ended ys copying (pos (suc n)) content rest c h e = refl
resume ended ys copying (negsuc n) content rest c h e = refl
resume ended ys eof n content rest c h e = rw (stop_eof (rest ++ ys) n content)
resume ended ys failed n content rest c h e = cc
resume ended ys p n content rest c h e = elim h [ inl r ↦ rw r | inr r ↦ absurd r ]

-- A source that has sent `xs` and may send more.
abbrev pub arrived : Bytes → Input
arrived xs = record { bytes = xs; is_closed = false; broken = false }

-- If a call succeeds on the first part of the input, then a second call on what it left and the
-- rest of the input returns what one call on all of it would have returned.
pub decode-resume :
    (xs ys : Bytes) (closed broken : Bool) (s : State) (out : Output) (d : Decoded)
    → decode (arrived xs) s out ≡ some d
    → d.success ≡ true
    → decode (record { bytes = d.rest ++ ys; is_closed = closed; broken = broken }) d.state d.out
      ≡ decode (record { bytes = xs ++ ys; is_closed = closed; broken = broken }) s out
unfolding finish
decode-resume xs ys closed broken s out d e ok =
    let f = feed xs s out.bytes in
    let a = answer false out.is_closed f.state.parse_state f.state.cur_chunklen f.content f.rest in
    let same : d ≡ a = cc (e, decode-feed (arrived xs) s out) in
    let ended = broken || closed in
    decode-feed (record { bytes = d.rest ++ ys; is_closed = closed; broken = broken }) d.state d.out
    ∙ ap some (
        subst
          (λ d.
            d.success ≡ true
            → resumed ended ys d
              ≡ finish ended out.is_closed (feed (f.rest ++ ys) f.state f.content))
          (sym same)
          (resume ended ys f.state.parse_state f.state.cur_chunklen f.content f.rest out.is_closed
            (feed-rest xs s out.bytes))
          ok
        ∙ ap (finish ended out.is_closed) (sym (feed-append xs ys s out.bytes)))
    ∙ sym (decode-feed (record { bytes = xs ++ ys; is_closed = closed; broken = broken }) s out)
