-- ===== src/Chunk/Steal/Loop.antt =====
-- The loop of `li_chunkqueue_steal_len` splits the chunks at the length asked for.
use lighttpd.Prelude.{
  ℕ, ◌+◌, ◌-◌, ◌≤◌, ◌<◌, ◌≡◌, refl, sym, ap, subst, ◌∙◌, inl, inr, Bool-cases, some, List, [], ◌∷◌,
  ◌++◌, append-nil, Bytes, map, length-drop, drop-drop, arith, length, take, drop, leb, ◌==◌,
  leb→le, ==_iff, length-take, take-nil, drop-nil, take-append_ge, take-append_le, drop-append_ge,
  drop-append_le,
}
use lighttpd.Chunk.Defs.{
  Body, unused_chunk, string_chunk, mem_chunk, file_chunk, buffer_chunk, Chunk, body_length,
  chunk_length, chunk_mem,
}
use lighttpd.Chunk.Content.{
  body_octets, octets, IsBody, AreChunks, length-body_octets, body_octets-drop, body_length-add,
  take-map, take-take, drop-take, take-file_range, byte,
}
use lighttpd.Chunk.Account.{total, total_mem}
use lighttpd.Chunk.Steal.{Stolen, stop, move_chunk, cut_body, cut_chunk, steal_loop}

nil_of_length {ℓ} : {A : Type ℓ} (xs : List A) → length xs ≡ 0 → xs ≡ []
nil_of_length [] e = refl
nil_of_length (x ∷ xs) e = absurd (omega arith)

-- The first part of a cut chunk has the first octets, and no other.
pub record IsFront (b : Body) (o n : ℕ) (b' : Body) : Type 0 where
  pub cut : cut_body b o n ≡ some b'
  pub octets_are : body_octets b' 0 ≡ take n (body_octets b o)
  pub valid : IsBody b' 0
  pub length_is : body_length b' 0 ≡ n
  pub rest_valid : IsBody b (o + n)

cut_buffer :
    (b : Bytes) (s o l n : ℕ)
    → n ≤ l - o
    → drop 0 (take n (drop (s + o) b)) ≡ take n (drop o (take l (drop s b)))
cut_buffer b s o l n h =
    rw (drop-take o l (drop s b), drop-drop s o b) (sym (take-take n (l - o) (drop (s + o) b) h))

pub cut_body-IsFront :
    (b : Body) (o n : ℕ) → IsBody b o → n < body_length b o → (b' : Body) × IsFront b o n b'
unfolding cut_body
cut_body-IsFront unused_chunk o n h k = elim k [ ]
cut_body-IsFront (string_chunk s) o n h k = (
  mem_chunk (take n (drop o s)),
  record {
    cut = refl;
    octets_are = take-map n (drop o s);
    valid = omega arith;
    length_is = omega (arith, length-take n (drop o s), length-drop o s);
    rest_valid = omega arith;
  },
)
cut_body-IsFront (mem_chunk s) o n h k = (
  mem_chunk (take n (drop o s)),
  record {
    cut = refl;
    octets_are = take-map n (drop o s);
    valid = omega arith;
    length_is = omega (arith, length-take n (drop o s), length-drop o s);
    rest_valid = omega arith;
  },
)
cut_body-IsFront (file_chunk f s l) o n h k = (
  file_chunk f (s + o) n,
  record {
    cut = refl;
    octets_are =
        let e : s + o + 0 ≡ s + o = omega arith in
        let d : n - 0 ≡ n = omega arith in
        rw (e, d) (sym (take-file_range n f (s + o) (l - o) (omega arith)));
    valid = omega arith;
    length_is = omega arith;
    rest_valid = omega arith;
  },
)
cut_body-IsFront (buffer_chunk b s l) o n h k = (
  buffer_chunk b (s + o) n,
  record {
    cut = refl;
    octets_are =
        ap (map byte) (cut_buffer b s o l n (omega arith))
        ∙ take-map n (drop o (take l (drop s b)));
    valid = (omega arith, omega arith);
    length_is = omega arith;
    rest_valid = (omega arith, omega arith);
  },
)

-- The outcome of stealing up to `len` octets from the chunks `cs`.
pub record IsStolen (cs : List Chunk) (len : ℕ) (s : Stolen) : Type 0 where
  pub moved_octets : octets s.moved ≡ take len (octets cs)
  pub rest_octets : octets s.rest ≡ drop len (octets cs)
  pub moved_valid : AreChunks s.moved
  pub rest_valid : AreChunks s.rest
  pub moved_size : total s.moved ≡ s.bytes
  pub rest_size : total s.rest + s.bytes ≡ total cs
  pub moved_mem : total_mem s.moved ≡ s.mem_out
  pub rest_mem : total_mem s.rest + s.mem_in ≡ total_mem cs

IsStolen-stop : (cs : List Chunk) → AreChunks cs → IsStolen cs 0 (stop cs)
IsStolen-stop cs h = record {
  moved_octets = refl;
  rest_octets = refl;
  moved_valid = omega arith;
  rest_valid = h;
  moved_size = omega arith;
  rest_size = omega arith;
  moved_mem = omega arith;
  rest_mem = omega arith;
}

IsStolen-nil : (len : ℕ) → IsStolen [] len (stop [])
IsStolen-nil len = record {
  moved_octets = sym (take-nil len);
  rest_octets = sym (drop-nil len);
  moved_valid = omega arith;
  rest_valid = omega arith;
  moved_size = omega arith;
  rest_size = omega arith;
  moved_mem = omega arith;
  rest_mem = omega arith;
}

module _ (c : Chunk) (cs : List Chunk) (len : ℕ) (h : IsBody c.body c.offset) where
  octets_length : length (body_octets c.body c.offset) ≡ chunk_length c
  octets_length = length-body_octets c.body c.offset h

  module _ (s : Stolen) (i : IsStolen cs (len - chunk_length c) s)
      (fits : chunk_length c ≤ len) where
    split_at : len ≡ length (body_octets c.body c.offset) + (len - chunk_length c)
    split_at = omega (arith, octets_length)

    IsStolen-move : IsStolen (c ∷ cs) len (move_chunk c s)
    IsStolen-move = record {
      moved_octets =
          ap (◌++◌ (body_octets c.body c.offset)) i.moved_octets
          ∙ sym (take-append_ge _ len _ (octets cs) split_at);
      rest_octets = i.rest_octets ∙ sym (drop-append_ge _ len _ (octets cs) split_at);
      moved_valid = (h, i.moved_valid);
      rest_valid = i.rest_valid;
      moved_size = omega (arith, i.moved_size);
      rest_size = omega (arith, i.rest_size);
      moved_mem = omega (arith, i.moved_mem);
      rest_mem = omega (arith, i.rest_mem);
    }

    empty_octets : chunk_length c ≡ 0 → body_octets c.body c.offset ≡ []
    empty_octets e = nil_of_length _ (octets_length ∙ e)

    IsStolen-empty :
        chunk_length c ≡ 0 → IsStolen (c ∷ cs) len (record s { mem_in = chunk_mem c + s.mem_in })
    IsStolen-empty e = record {
      moved_octets =
          i.moved_octets
          ∙ (let d : len - chunk_length c ≡ len = omega arith in rw (d, empty_octets e));
      rest_octets = IsStolen-move.rest_octets;
      moved_valid = i.moved_valid;
      rest_valid = i.rest_valid;
      moved_size = i.moved_size;
      rest_size = omega (arith, i.rest_size);
      moved_mem = i.moved_mem;
      rest_mem = omega (arith, i.rest_mem);
    }

  IsStolen-cut : AreChunks cs → len < chunk_length c → IsStolen (c ∷ cs) len (cut_chunk c cs len)
  unfolding cut_chunk
  IsStolen-cut t k =
      let (b, i) = cut_body-IsFront c.body c.offset len h k in
      rw (i.cut, cut_chunk)
        (record {
          moved_octets =
              append-nil _
              ∙ i.octets_are
              ∙ sym (take-append_le len _ (octets cs) (omega (arith, octets_length)));
          rest_octets =
              ap (λ xs. xs ++ octets cs) (body_octets-drop c.body c.offset len)
              ∙ sym (drop-append_le len _ (octets cs) (omega (arith, octets_length)));
          moved_valid = (i.valid, omega arith);
          rest_valid = (i.rest_valid, t);
          moved_size = omega (arith, i.length_is);
          rest_size = omega (arith, body_length-add c.body c.offset len);
          moved_mem = omega arith;
          rest_mem = omega arith;
        })

pub steal_loop-IsStolen :
    (cs : List Chunk) (len : ℕ) → AreChunks cs → IsStolen cs len (steal_loop cs len)
unfolding steal_loop
steal_loop-IsStolen [] len h = IsStolen-nil len
steal_loop-IsStolen (c ∷ cs) len (h, t) = elim (Bool-cases (len == 0)) [
  | inl z ↦ let e : len ≡ 0 = (==_iff len 0).0 z in rw (z, e) (IsStolen-stop (c ∷ cs) (h, t))
  | inr nz ↦ elim (Bool-cases (chunk_length c == 0)) [
    | inl e ↦
        rw (nz, e)
          (IsStolen-empty c cs len h _ (steal_loop-IsStolen cs (len - chunk_length c) t)
            (ground (arith, e)) ((==_iff _ 0).0 e))
    | inr ne ↦ elim (Bool-cases (leb (chunk_length c) len)) [
      | inl le ↦
          rw (nz, ne, le)
            (IsStolen-move c cs len h _ (steal_loop-IsStolen cs (len - chunk_length c) t)
              (leb→le _ _ le))
      | inr gt ↦ rw (nz, ne, gt) (IsStolen-cut c cs len h t (ground (arith, gt)))
    ]
  ]
]

-- A whole chunk, as `li_chunkqueue_steal_chunk` takes it.
pub IsStolen-chunk :
    (c : Chunk) (cs : List Chunk)
    → IsBody c.body c.offset
    → AreChunks cs
    → IsStolen (c ∷ cs) (chunk_length c) (record {
      moved = c ∷ [];
      rest = cs;
      bytes = chunk_length c;
      mem_in = chunk_mem c;
      mem_out = chunk_mem c;
    })
IsStolen-chunk c cs h t =
    let e : chunk_length c - chunk_length c ≡ 0 = omega arith in
    let m =
      IsStolen-move c cs (chunk_length c) h (stop cs)
        (subst (λ k. IsStolen cs k (stop cs)) (sym e) (IsStolen-stop cs t)) (omega arith) in
    record {
      moved_octets = m.moved_octets;
      rest_octets = m.rest_octets;
      moved_valid = m.moved_valid;
      rest_valid = m.rest_valid;
      moved_size = omega arith;
      rest_size = omega arith;
      moved_mem = omega arith;
      rest_mem = omega arith;
    }
