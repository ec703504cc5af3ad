-- ===== src/Chunk/World.antt =====
-- All queues that share a set of limits, and the accounts between them.
use lighttpd.Prelude.{
  subst, false, ℕ, ◌+◌, ◌-◌, ◌≤◌, ◌≡◌, refl, sym, ◌∙◌, Bool-cases, Option, none, some, inl, inr,
  List, [], ◌∷◌, arith, ◌==◌, Option-cases, ap₂, suc, if◌then◌else◌,
}
use lighttpd.Prelude.Int.{ℤ, pos, negsuc, neg, add_ℤ}
use lighttpd.Chunk.Defs.{
  Body, unused_chunk, string_chunk, mem_chunk, file_chunk, buffer_chunk, in_memory, body_mem,
  CqLimit, ChunkQueue, Limits,
}
use lighttpd.Chunk.Limit.{charge, release, cqlimit_update, limits_add, cqlimit_add, set_cqlimit}
use lighttpd.Chunk.Limit.Locks.{IsLocked, IsChecked, exceeded, cqlimit_add-IsChecked}

-- What a queue with this limit and memory adds to limit i.
abbrev pub share : ℕ → Option ℕ → ℕ → ℕ
share i none usage = 0
share i (some j) usage = if j == i then usage else 0

abbrev pub shares : ℕ → List ChunkQueue → ℕ
shares i [] = 0
shares i (cq ∷ qs) = share i cq.limit cq.mem_usage + shares i qs

pub share-add : (i : ℕ) (l : Option ℕ) (a b : ℕ) → share i l (a + b) ≡ share i l a + share i l b
share-add i none a b = omega arith
share-add i (some j) a b = ground arith

pub share-zero : (i : ℕ) (l : Option ℕ) → share i l 0 ≡ 0
share-zero i none = refl
share-zero i (some j) = ground arith

-- Each limit counts the memory of its queues, and is locked exactly if that reaches it.
pub record IsWorld (lims : Limits) (qs : List ChunkQueue) : Type 0 where
  pub counted : (i : ℕ) → (lims i).current ≡ shares i qs
  pub locks : (i : ℕ) → IsLocked (lims i)

pub IsWorld-swap :
    {lims : Limits} (a b : ChunkQueue) (qs : List ChunkQueue)
    → IsWorld lims (a ∷ b ∷ qs)
    → IsWorld lims (b ∷ a ∷ qs)
IsWorld-swap a b qs w = record { counted = λ i. omega (arith, w.counted i); locks = w.locks }

-- A sum that is good for the smaller number is good for the larger one.
add_ℤ-mono :
    (n m : ℕ) (d : ℤ) {u : ℕ}
    → n ≤ m
    → add_ℤ n d ≡ some u
    → (v : ℕ) × (add_ℤ m d ≡ some v) × (v + n ≡ m + u)
add_ℤ-mono n m (pos d) h e = (m + d, refl, ground arith)
add_ℤ-mono n m (negsuc d) h e = (m - suc d, ground arith, ground arith)

pub add_ℤ-neg : (n m : ℕ) → m ≤ n → add_ℤ n (neg m) ≡ some (n - m)
add_ℤ-neg n m h = ground arith

-- An update that leaves the queue's memory nonnegative never aborts, and keeps the accounts.
abbrev pub Updates : Limits → ChunkQueue → ℤ → ℕ → List ChunkQueue → Type 0
Updates lims cq d usage qs =
    (lims' : Limits) × (cqlimit_update lims cq d ≡ some (lims', record cq { mem_usage = usage }))
    × IsWorld lims' (record cq { mem_usage = usage } ∷ qs)

module _ (lims : Limits) (cq : ChunkQueue) (d : ℤ) (qs : List ChunkQueue) (usage : ℕ)
    (e : add_ℤ cq.mem_usage d ≡ some usage) (w : IsWorld lims (cq ∷ qs)) where
  update_free : cq.limit ≡ none → Updates lims cq d usage qs
  unfolding cqlimit_update limits_add
  update_free l =
      (lims, rw (e, l), record { counted = λ i. ground (arith, w.counted i); locks = w.locks })

  module _ (i : ℕ) (l : cq.limit ≡ some i) (v : ℕ)
      (sum : v + cq.mem_usage ≡ (lims i).current + usage) (c : CqLimit)
      (checked : IsChecked (record (lims i) { current = v }) c) where
    counted_set : (j : ℕ) → (set_cqlimit lims i c j).current ≡ share j cq.limit usage + shares j qs
    counted_set j = ground (arith, checked.current_is, w.counted j, w.counted i)

    locks_set : (j : ℕ) → IsLocked (set_cqlimit lims i c j)
    locks_set j = elim (Bool-cases (i == j)) [
      | inl same ↦
          rw same (checked.lock_is ∙ ap₂ exceeded (sym checked.limit_is) (sym checked.current_is))
      | inr other ↦ rw other (w.locks j)
    ]

    update_done : cqlimit_add (lims i) d ≡ some c → Updates lims cq d usage qs
    unfolding cqlimit_update limits_add
    update_done ec =
        (set_cqlimit lims i c, rw (e, l, ec), record { counted = counted_set; locks = locks_set })

  update_shared : (i : ℕ) → cq.limit ≡ some i → Updates lims cq d usage qs
  update_shared i l =
      let enough : cq.mem_usage ≤ (lims i).current = ground (arith, w.counted i) in
      let (v, ev, sum) = add_ℤ-mono cq.mem_usage (lims i).current d enough e in
      let (c, ec, checked) = cqlimit_add-IsChecked (lims i) d ev in
      update_done i l v sum c checked ec

  pub cqlimit_update-IsWorld : Updates lims cq d usage qs
  cqlimit_update-IsWorld = elim (Option-cases cq.limit) [
    | inl l ↦ update_free l
    | inr (i, l) ↦ update_shared i l
  ]

pub file_mem : (b : Body) → in_memory b ≡ false → body_mem b ≡ 0
file_mem unused_chunk e = refl
file_mem (string_chunk str) e = cc
file_mem (mem_chunk mem) e = cc
file_mem (file_chunk file start len) e = refl
file_mem (buffer_chunk buffer start len) e = cc

-- The queue with another amount of memory on its account.
abbrev pub with_usage : ChunkQueue → ℕ → ChunkQueue
with_usage cq m = record cq { mem_usage = m }

-- An operation that sets the queue's memory to m never aborts, and keeps the accounts.
abbrev pub Settles : ChunkQueue → ℕ → List ChunkQueue → Option (Limits × ChunkQueue) → Type 0
Settles cq m qs r =
    (lims' : Limits) × (r ≡ some (lims', with_usage cq m)) × IsWorld lims' (with_usage cq m ∷ qs)

module _ (lims : Limits) (cq : ChunkQueue) (b : Body) (qs : List ChunkQueue)
    (w : IsWorld lims (cq ∷ qs)) where
  keep-IsWorld : (m : ℕ) → cq.mem_usage ≡ m → Settles cq m qs (some (lims, cq))
  keep-IsWorld m e = subst (λ k. Settles cq k qs (some (lims, cq))) e (lims, refl, w)

  pub charge-IsWorld : Settles cq (cq.mem_usage + body_mem b) qs (charge lims cq b)
  unfolding charge
  charge-IsWorld = elim (Bool-cases (in_memory b)) [
    | inl m ↦
        rw m
          (cqlimit_update-IsWorld lims cq (pos (body_mem b)) qs (cq.mem_usage + body_mem b) refl w)
    | inr f ↦ rw f (keep-IsWorld (cq.mem_usage + body_mem b) (omega (arith, file_mem b f)))
  ]

  pub release-IsWorld :
      body_mem b ≤ cq.mem_usage → Settles cq (cq.mem_usage - body_mem b) qs (release lims cq b)
  unfolding release
  release-IsWorld h = elim (Bool-cases (in_memory b)) [
    | inl m ↦ rw m (
        cqlimit_update-IsWorld lims cq (neg (body_mem b)) qs (cq.mem_usage - body_mem b)
          (add_ℤ-neg cq.mem_usage (body_mem b) h) w)
    | inr f ↦ rw f (keep-IsWorld (cq.mem_usage - body_mem b) (omega (arith, file_mem b f)))
  ]
