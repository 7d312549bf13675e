-- ===== src/Buffer/Slots.antt =====
-- What the slots of a buffer hold, and how clearing and storing change them.
use mathlib.Core.Bool.{false≢true}
use native.Mathlib.Decide.{ℕ_discrete}
use sik_telnet_radio.Prelude.{
  ℕ, zero, suc, ◌+◌, ◌-◌, ◌*◌, ◌≤◌, ◌<◌, ◌≡◌, refl, sym, ap, ap₂, ◌∙◌, ◌≢◌, ◌⊎◌, inl, inr, true,
  false, Option, none, some, List, [], ◌∷◌, arith, if◌then◌else◌, dec_lt, take, get_or, replicate,
  length, fun_ext,
}
use sik_telnet_radio.Outcome.{ok, Array, memset, memcpy, read_from}
use sik_telnet_radio.Packet.{AudioPacket, audio_data}
use sik_telnet_radio.Buffer.{CircularBuffer, clear, store}
use sik_telnet_radio.Buffer.Shape.{room-mul}

abbrev pub Payload : Type 0
Payload = Option (List ℕ)

-- The packet in slot `s`, or `none` where it is missing.
abbrev pub slot : CircularBuffer → ℕ → Payload
slot b s =
    if b.occupied (s * b.psize) then some (read_from b.memory (s * b.psize) b.psize) else none

pub read_frame :
    {A : Type 0} (a b : Array A) (pos len : ℕ)
    → ((i : ℕ) → pos ≤ i → i < pos + len → a i ≡ b i)
    → read_from a pos len ≡ read_from b pos len
unfolding read_from
read_frame a b pos zero same = refl
read_frame a b pos (suc len) same =
    ap₂ ◌∷◌ (same pos (omega arith) (omega arith))
      (read_frame a b (pos + 1) len (λ i lo hi. same i (omega arith) (omega arith)))

pub read_constant :
    {A : Type 0} (a : Array A) (v : A) (pos len : ℕ)
    → ((i : ℕ) → pos ≤ i → i < pos + len → a i ≡ v)
    → read_from a pos len ≡ replicate len v
unfolding read_from
read_constant a v pos zero same = refl
read_constant a v pos (suc len) same =
    ap₂ ◌∷◌ (same pos (omega arith) (omega arith))
      (read_constant a v (pos + 1) len (λ i lo hi. same i (omega arith) (omega arith)))

-- The items of `xs` from `pos` on stand in the array.
read_list :
    (a : Array ℕ) (xs : List ℕ) (pos len : ℕ)
    → len ≤ length xs
    → ((i : ℕ) → i < len → a (pos + i) ≡ get_or xs i 0)
    → read_from a pos len ≡ take len xs
unfolding read_from
read_list a xs pos zero h same = refl
read_list a [] pos (suc len) h same = absurd (omega arith)
read_list a (x ∷ xs) pos (suc len) h same =
    ap₂ ◌∷◌ (ap a {y = pos + 0} (omega arith) ∙ same 0 (omega arith)) (
      read_list a xs (pos + 1) len (omega arith)
        (λ i hi. ap a {y = pos + suc i} (omega arith) ∙ same (suc i) (omega arith)))

pub read-memcpy :
    (a : Array ℕ) (pos len : ℕ) (xs : List ℕ)
    → len ≤ length xs
    → read_from (memcpy a pos len xs) pos len ≡ take len xs
unfolding memcpy
read-memcpy a pos len xs h = read_list (memcpy a pos len xs) xs pos len h (λ i hi.
    ground (arith, ap (λ (j : ℕ). get_or xs j 0) {x = pos + i - pos} {y = i} (omega arith)))

pub memset-none : {A : Type 0} (a : Array A) (pos : ℕ) (v : A) → memset a pos 0 v ≡ a
unfolding memset
memset-none a pos v = fun_ext (λ i. ground arith)

-- Two slots do not meet.
pub apart : (p i j : ℕ) → i ≢ j → (i * p + p ≤ j * p) ⊎ (j * p + p ≤ i * p)
apart p i j ne = elim (dec_lt i j) [
  | yes q ↦ inl (room-mul p i j q)
  | no q ↦ inr (room-mul p j i (omega arith))
]

-- Every slot that is not marked as occupied reads as silence.
abbrev pub IsQuiet : CircularBuffer → ℕ → Type 0
IsQuiet b j =
    b.occupied (j * b.psize) ≡ false
    → read_from b.memory (j * b.psize) b.psize ≡ replicate b.psize 0

-- `b'` is `b` with `x` in slot `s`, as far as its `k` slots show.
pub record Fills (b b' : CircularBuffer) (k s : ℕ) (x : Payload) : Type 0 where
  pub self : slot b' s ≡ x
  pub others : (j : ℕ) → j < k → j ≢ s → slot b' j ≡ slot b j
  pub quiet : ((j : ℕ) → j < k → IsQuiet b j) → (j : ℕ) → j < k → IsQuiet b' j

abbrev pub cleared : CircularBuffer → ℕ → CircularBuffer
cleared b s = record b {
  memory = memset b.memory (s * b.psize) b.psize 0;
  occupied = memset b.occupied (s * b.psize) b.psize false;
}

module _ (b : CircularBuffer) (s : ℕ) (pos : 0 < b.psize) where
  cleared_occupied : memset b.occupied (s * b.psize) b.psize false (s * b.psize) ≡ false
  unfolding memset
  cleared_occupied = ground arith

  cleared_occupied_ne :
      (j : ℕ)
      → j ≢ s
      → memset b.occupied (s * b.psize) b.psize false (j * b.psize) ≡ b.occupied (j * b.psize)
  unfolding memset
  cleared_occupied_ne j ne = ground (arith, apart b.psize s j)

  cleared_memory_ne :
      (j : ℕ)
      → j ≢ s
      → read_from (memset b.memory (s * b.psize) b.psize 0) (j * b.psize) b.psize
        ≡ read_from b.memory (j * b.psize) b.psize
  unfolding memset
  cleared_memory_ne j ne =
      read_frame _ b.memory (j * b.psize) b.psize (λ i lo hi. ground (arith, apart b.psize s j))

  cleared_memory :
      read_from (memset b.memory (s * b.psize) b.psize 0) (s * b.psize) b.psize
      ≡ replicate b.psize 0
  unfolding memset
  cleared_memory = read_constant _ 0 (s * b.psize) b.psize (λ i lo hi. ground arith)

  clear-IsQuiet :
      (k : ℕ) → ((j : ℕ) → j < k → IsQuiet b j) → (j : ℕ) → j < k → IsQuiet (cleared b s) j
  clear-IsQuiet k all j hj = elim (ℕ_discrete j s) [
    | yes e ↦ λ _. rw e cleared_memory
    | no ne ↦ λ h. cleared_memory_ne j ne ∙ all j hj (sym (cleared_occupied_ne j ne) ∙ h)
  ]

  cleared-Fills : (k : ℕ) → Fills b (cleared b s) k s none
  cleared-Fills k = record {
    self = rw cleared_occupied;
    others = λ j hj ne. rw (cleared_occupied_ne j ne, cleared_memory_ne j ne);
    quiet = clear-IsQuiet k;
  }

-- Clearing a slot leaves it empty and silent, and the other slots as they were.
pub clear-Fills :
    (b : CircularBuffer) (k s : ℕ)
    → 0 < b.psize
    → s * b.psize + b.psize ≤ b.capacity
    → (clear b (s * b.psize) b.psize ≡ ok (cleared b s)) × Fills b (cleared b s) k s none
unfolding clear
clear-Fills b k s pos fits = (ground arith, cleared-Fills b s pos k)

abbrev pub stored : CircularBuffer → ℕ → AudioPacket → CircularBuffer
stored b s packet = record b {
  memory = memcpy b.memory (s * b.psize) b.psize (audio_data packet);
  occupied = memset b.occupied (s * b.psize) 1 true;
  empty = false;
}

module _ (b : CircularBuffer) (s : ℕ) (packet : AudioPacket) (pos : 0 < b.psize) where
  stored_occupied : memset b.occupied (s * b.psize) 1 true (s * b.psize) ≡ true
  unfolding memset
  stored_occupied = ground arith

  stored_occupied_ne :
      (j : ℕ)
      → j ≢ s
      → memset b.occupied (s * b.psize) 1 true (j * b.psize) ≡ b.occupied (j * b.psize)
  unfolding memset
  stored_occupied_ne j ne = ground (arith, apart b.psize s j)

  stored_memory_ne :
      (j : ℕ)
      → j ≢ s
      → read_from (memcpy b.memory (s * b.psize) b.psize (audio_data packet)) (j * b.psize) b.psize
        ≡ read_from b.memory (j * b.psize) b.psize
  unfolding memcpy
  stored_memory_ne j ne =
      read_frame _ b.memory (j * b.psize) b.psize (λ i lo hi. ground (arith, apart b.psize s j))

  stored-IsQuiet :
      (k : ℕ) → ((j : ℕ) → j < k → IsQuiet b j) → (j : ℕ) → j < k → IsQuiet (stored b s packet) j
  stored-IsQuiet k all j hj = elim (ℕ_discrete j s) [
    | yes e ↦ λ h. absurd (false≢true (sym h ∙ rw e stored_occupied))
    | no ne ↦ λ h. stored_memory_ne j ne ∙ all j hj (sym (stored_occupied_ne j ne) ∙ h)
  ]

  -- Storing a packet fills its slot with the first `psize` bytes of the payload.
  pub store-Fills :
      (k : ℕ)
      → s * b.psize + b.psize ≤ b.capacity
      → b.psize ≤ length (audio_data packet)
      → (store b (s * b.psize) packet ≡ ok (stored b s packet))
        × Fills b (stored b s packet) k s (some (take b.psize (audio_data packet)))
  unfolding store
  store-Fills k fits enough = (
    ground arith,
    record {
      self =
          rw (
            stored_occupied,
            read-memcpy b.memory (s * b.psize) b.psize (audio_data packet) enough,
          );
      others = λ j hj ne. rw (stored_occupied_ne j ne, stored_memory_ne j ne);
      quiet = stored-IsQuiet k;
    },
  )
