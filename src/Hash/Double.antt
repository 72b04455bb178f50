-- ===== src/Hash/Double.antt =====
-- The doubling of the directory keeps the invariant.
use cmu.Common.{ℕ, ◌%◌, ◌^◌, ◌≤◌, ◌<◌, ◌≡◌, refl, sym, ◌∙◌, arith, length, get_or, length-append}
use cmu.Common.Bits.{two-pow_pos, two-pow-add_one, mod-mod_of_le, entry-double, get_or-double}
use native.Mathlib.Nat.{mod-lt}
use cmu.Hash.Buckets.{HashKey}
use cmu.Hash.Valid.{IsValid}
use cmu.Hash.{Table, bucket_at, home, index_of, double_dir}

module _ {K V : Type 0} ⦃key : HashKey K⦄ where
  -- Doubling the directory leaves every home as it is.
  pub home-double_dir : (q : K) (t : Table K V) → IsValid t → home q (double_dir t) ≡ home q t
  unfolding home index_of double_dir
  home-double_dir q t h =
      rw (two-pow-add_one t.global_depth, ← h.width)
        (get_or-double t.dir (key.hash q) 0 (omega (arith, h.width, two-pow_pos t.global_depth)))

  dir_pos : (t : Table K V) → IsValid t → 0 < length t.dir
  dir_pos t h = omega (arith, h.width, two-pow_pos t.global_depth)

  entry-double_dir :
      (t : Table K V) (i : ℕ)
      → IsValid t
      → i < length (double_dir t).dir
      → (get_or (double_dir t).dir i 0 ≡ get_or t.dir (i % length t.dir) 0)
        × (i % length t.dir < length t.dir)
  unfolding double_dir
  entry-double_dir t i h lt =
      let pos = dir_pos t h in
      (entry-double t.dir i 0 pos (omega (arith, lt, length-append t.dir t.dir)), mod-lt i pos)

  pub bucket_at-double_dir : (t : Table K V) (b : ℕ) → bucket_at (double_dir t) b ≡ bucket_at t b
  unfolding double_dir bucket_at
  bucket_at-double_dir t b = refl

  low_bits :
      (t : Table K V) (i d : ℕ)
      → IsValid t
      → d ≤ t.global_depth
      → i % length t.dir % 2 ^ d ≡ i % 2 ^ d
  low_bits t i d h le = rw h.width (mod-mod_of_le i d t.global_depth le)

  pub double_dir-IsValid : (t : Table K V) → IsValid t → IsValid (double_dir t)
  double_dir-IsValid t h = record {
    width =
        unfold double_dir in
        omega (arith, length-append t.dir t.dir, h.width, two-pow-add_one t.global_depth);
    inside = λ i p.
        let e = entry-double_dir t i h p in
        rw e.0 (unfold double_dir in h.inside (i % length t.dir) e.1);
    buckets = λ b. unfold double_dir bucket_at in h.buckets b;
    sizes = λ b. unfold double_dir bucket_at in h.sizes b;
    placed =
        λ b q p. unfold double_dir bucket_at in h.placed b q (λ e. p (home-double_dir q t h ∙ e));
    shallow = λ i p.
        let e = entry-double_dir t i h p in
        rw (e.0, bucket_at-double_dir)
          (unfold double_dir in omega (arith, h.shallow (i % length t.dir) e.1));
    agree = λ i j p r same.
        let e = entry-double_dir t i h p in
        let f = entry-double_dir t j h r in
        let shared : get_or t.dir (i % length t.dir) 0 ≡ get_or t.dir (j % length t.dir) 0 =
          sym e.0 ∙ same ∙ f.0 in
        let low = h.shallow (i % length t.dir) e.1 in
        rw (e.0, bucket_at-double_dir)
          (sym (low_bits t i _ h low)
            ∙ h.agree (i % length t.dir) (j % length t.dir) e.1 f.1 shared
            ∙ low_bits t j _ h low);
  }
