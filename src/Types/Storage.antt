-- ===== src/Types/Storage.antt =====
-- `SerializeTo` and `DeserializeFrom` of the integer types. The bytes of a number stand in storage as
-- the machine has them: two's complement, the lowest byte first.
use cmu.Common.{
  ℕ, zero, suc, ◌+◌, ◌-◌, ◌*◌, ◌/◌, ◌%◌, ◌≤◌, ◌<◌, ◌≡◌, refl, ap, ◌∙◌, arith, ltb, if◌then◌else◌,
  ◌==◌,
}
use cmu.Common.Int.{ℤ, pos, negsuc}
use cmu.Types.Words.{Fits}
use cmu.Types.Value.{
  TypeId, tinyint, smallint, integer, bigint, size_of, half, Value, new_value, copy, IsValid,
}
use cmu.Types.Compare.{copy_lem}

-- The word of a signed number, and back.
unfoldable pub word : ℕ → ℤ → ℕ
word H (pos n) = n
word H (negsuc n) = H + H - n - 1

unfoldable pub signed : ℕ → ℕ → ℤ
signed H w = if ltb w H then pos w else negsuc (H + H - w - 1)

unfoldable pub store_bytes : ℕ → ℕ → ℕ → (ℕ → ℕ) → ℕ → ℕ
store_bytes zero w at storage x = storage x
store_bytes (suc n) w at storage x =
    if x == at then w % 256 else store_bytes n (w / 256) (at + 1) storage x

unfoldable pub load_bytes : ℕ → ℕ → (ℕ → ℕ) → ℕ
load_bytes zero at storage = 0
load_bytes (suc n) at storage = storage at + 256 * load_bytes n (at + 1) storage

unfoldable pub serialize_to : Value → (ℕ → ℕ) → ℕ → ℕ
unfolding word store_bytes
serialize_to val storage =
    store_bytes (size_of val.type_id) (word (half val.type_id) val.number) 0 storage

unfoldable pub deserialize_from : TypeId → (ℕ → ℕ) → Value
unfolding signed load_bytes new_value
deserialize_from t storage = new_value t (signed (half t) (load_bytes (size_of t) 0 storage))

-- Bytes of an outer place do not count.
load_bytes-congr :
    (n at : ℕ) (f g : ℕ → ℕ)
    → ((x : ℕ) → at ≤ x → f x ≡ g x)
    → load_bytes n at f ≡ load_bytes n at g
unfolding load_bytes
load_bytes-congr zero at f g h = refl
load_bytes-congr (suc n) at f g h =
    omega (arith, h at (omega arith), load_bytes-congr n (at + 1) f g (λ x le. h x (omega arith)))

abbrev words : ℕ → ℕ
words zero = 1
words (suc n) = 256 * words n

load-store :
    (n w at : ℕ) (storage : ℕ → ℕ) → w < words n → load_bytes n at (store_bytes n w at storage) ≡ w
unfolding load_bytes store_bytes
load-store zero w at storage h = omega arith
load-store (suc n) w at storage h =
    let tail =
      load_bytes-congr n (at + 1) (store_bytes (suc n) w at storage)
        (store_bytes n (w / 256) (at + 1) storage) (λ x le. ground arith) in
    let ih = load-store n (w / 256) (at + 1) storage (omega arith) in ground (arith, tail, ih)

store_bytes_other :
    (n w at x : ℕ) (storage : ℕ → ℕ) → at + n ≤ x → store_bytes n w at storage x ≡ storage x
unfolding store_bytes
store_bytes_other zero w at x storage h = refl
store_bytes_other (suc n) w at x storage h =
    ground (arith, store_bytes_other n (w / 256) (at + 1) x storage (omega arith))

word_lt : (H : ℕ) (z : ℤ) → Fits H z → word H z < H + H
unfolding word
word_lt H (pos n) f = omega arith
word_lt H (negsuc n) f = omega arith

signed-word : (H : ℕ) (z : ℤ) → Fits H z → signed H (word H z) ≡ z
unfolding signed word
signed-word H (pos n) f = ground arith
signed-word H (negsuc n) f = ground arith

size_words : (t : TypeId) → words (size_of t) ≡ half t + half t
size_words tinyint = omega arith
size_words smallint = omega arith
size_words integer = omega arith
size_words bigint = omega arith

-- DeserializeFrom at the type of a valid integer value gives back what SerializeTo has stored, NULL
-- included, and SerializeTo changes no byte past the size of the type.
pub deserialize_from-serialize_to :
    (v : Value) (storage : ℕ → ℕ)
    → IsValid v
    → (deserialize_from v.type_id (serialize_to v storage) ≡ v)
      × ((x : ℕ) → size_of v.type_id ≤ x → serialize_to v storage x ≡ storage x)
unfolding deserialize_from serialize_to copy
deserialize_from-serialize_to v storage valid =
    let H : ℕ = half v.type_id in
    let w : ℕ = word H v.number in
    let n : ℕ = size_of v.type_id in
    let small : w < words n = omega (arith, size_words v.type_id, word_lt H v.number valid.fits) in
    let read = load-store n w 0 storage small in
    (
      ap (λ (k : ℕ). new_value v.type_id (signed H k)) read
          ∙ ap (new_value v.type_id) (signed-word H v.number valid.fits)
          ∙ copy_lem v valid,
      λ x le. store_bytes_other n w 0 x storage (omega arith),
    )
