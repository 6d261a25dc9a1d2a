-- ===== src/Key/Preimage.antt =====
-- The length-prefixed components that are hashed, and that they can be read back.
use mathlib.Core.List.{foldl, append-nil, append_assoc}
use mathlib.Core.Path.{subst}
use rbatis_cache.Common.{
  ℕ, ◌≤◌, ◌≡◌, refl, sym, ◌∙◌, List, [], ◌∷◌, ◌++◌, Bytes, length, All, arith, to_le_bytes,
  to_le_bytes-injective, to_u64_saturating, u64_max,
}

-- `hasher.update` appends; the length is written as a little-endian u64.
unfoldable pub update_component : Bytes → Bytes → Bytes
update_component hasher bytes = (hasher ++ to_le_bytes (to_u64_saturating (length bytes))) ++ bytes

abbrev frame : Bytes → Bytes
frame bytes = to_le_bytes (to_u64_saturating (length bytes)) ++ bytes

abbrev pub frames : List Bytes → Bytes
frames [] = []
frames (c ∷ cs) = frame c ++ frames cs

pub foldl-frames :
    (cs : List Bytes) (hasher : Bytes) → foldl update_component hasher cs ≡ hasher ++ frames cs
unfolding update_component
foldl-frames [] hasher = sym (append-nil hasher)
foldl-frames (c ∷ cs) hasher = foldl-frames cs (update_component hasher c) ∙ simp append_assoc

append-cancel :
    {A : Type 0} (a b r s : List A) → length a ≡ length b → a ++ r ≡ b ++ s → (a ≡ b) × (r ≡ s)
append-cancel [] [] r s h e = (refl, e)
append-cancel [] (y ∷ b) r s h e = absurd (omega arith)
append-cancel (x ∷ a) [] r s h e = absurd (omega arith)
append-cancel (x ∷ a) (y ∷ b) r s h e =
    let (p, q) = append-cancel a b r s (omega arith) (cc) in (cc, q)

length-to_le_bytes : (n : ℕ) → length (to_le_bytes n) ≡ 8
unfolding to_le_bytes
length-to_le_bytes n = refl

to_u64_saturating_exact : (n : ℕ) → n ≤ u64_max → to_u64_saturating n ≡ n
unfolding to_u64_saturating
to_u64_saturating_exact n h = ground arith

-- A frame tells where it ends.
frame-cancel :
    (a b r s : Bytes)
    → length a ≤ u64_max
    → length b ≤ u64_max
    → frame a ++ r ≡ frame b ++ s
    → (a ≡ b) × (r ≡ s)
frame-cancel a b r s ha hb e =
    let long : (n m : Bytes)
        → frame n ++ m ≡ to_le_bytes (to_u64_saturating (length n)) ++ (n ++ m) =
      λ n m. append_assoc _ n m in
    let (sizes, bodies) =
      append-cancel (to_le_bytes (to_u64_saturating (length a)))
        (to_le_bytes (to_u64_saturating (length b))) (a ++ r) (b ++ s)
        (length-to_le_bytes _ ∙ sym (length-to_le_bytes _)) (sym (long a r) ∙ (e ∙ long b s)) in
    append-cancel a b r s
      (to_le_bytes-injective (length a) (length b) ha hb (
        subst (λ n. to_le_bytes n ≡ to_le_bytes (length b)) (to_u64_saturating_exact _ ha)
          (subst (λ n. to_le_bytes (to_u64_saturating (length a)) ≡ to_le_bytes n)
            (to_u64_saturating_exact _ hb) sizes)))
      bodies

pub frames-injective :
    (cs ds : List Bytes)
    → All (λ c. length c ≤ u64_max) cs
    → All (λ c. length c ≤ u64_max) ds
    → length cs ≡ length ds
    → frames cs ≡ frames ds
    → cs ≡ ds
frames-injective [] [] hc hd h e = refl
frames-injective [] (d ∷ ds) hc hd h e = absurd (omega arith)
frames-injective (c ∷ cs) [] hc hd h e = absurd (omega arith)
frames-injective (c ∷ cs) (d ∷ ds) hc hd h e =
    let (same, rest) = frame-cancel c d (frames cs) (frames ds) hc.0 hd.0 e in
    let tail = frames-injective cs ds hc.1 hd.1 (omega arith) rest in cc
