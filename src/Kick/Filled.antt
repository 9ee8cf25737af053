-- ===== src/Kick/Filled.antt =====
-- The bytes that the stores of `add_module` in boot_aos.c change.
use bboot.Base.{
  ℕ, suc, ◌+◌, ◌<◌, inl, inr, [], ◌∷◌, ◌++◌, ◌≡◌, refl, ap, ◌∙◌, ◌==◌, if◌then◌else◌, word, Bytes,
  length, arith,
}
use bboot.Memory.{Mem, read32, write8, write16, write32, strcpy, load_bytes}
use bboot.Memory.Laws.{write32_other, read32-write32, read32-write32_other}
use bboot.AosList.Frame.{Outside, SameOutside}
use bboot.Zip.Archive.{SameWithin, read32-SameWithin, load_bytes-SameWithin}
use bboot.Kick.{sizeof_module, fill_module}
use bboot.Kick.Kicklist.{SameBelow}

strcpy_frame : (m : Mem) (a : ℕ) (s : Bytes) → SameOutside a (a + length s + 1) m (strcpy m a s)
unfolding strcpy write8
strcpy_frame m a [] b out = ground (arith, out)
strcpy_frame m a (c ∷ s) b out =
    strcpy_frame (write8 m a c) (a + 1) s b (omega (arith, out)) ∙ ground (arith, out)

pub write16_frame : (m : Mem) (a v : ℕ) → SameOutside a (a + 2) m (write16 m a v)
unfolding write16 write8
write16_frame m a v b out = ground (arith, out)

-- They lie in the structure and in the name behind it.
pub fill_module_frame :
    (n data_ len : ℕ) (name : Bytes) (m : Mem)
    → SameOutside n (n + (sizeof_module + length name + 1)) m (fill_module n data_ len name m)
unfolding fill_module
fill_module_frame n data_ len name m b out =
    write32_other _ (n + 32) len b (omega (arith, out))
    ∙ write32_other _ (n + 28) data_ b (omega (arith, out))
    ∙ write32_other _ (n + 24) (n + 24) b (omega (arith, out))
    ∙ write32_other _ (n + 20) (n + 20) b (omega (arith, out))
    ∙ write16_frame _ (n + 18) 3 b (omega (arith, out))
    ∙ write16_frame _ (n + 16) 2 b (omega (arith, out))
    ∙ write32_other _ (n + 12) 0 b (omega (arith, out))
    ∙ write32_other _ (n + 8) (n + sizeof_module) b (omega (arith, out))
    ∙ strcpy_frame m (n + sizeof_module) name b (omega (arith, out))

pub fill_module-SameBelow :
    (n data_ len : ℕ) (name : Bytes) (m : Mem) → SameBelow n m (fill_module n data_ len name m)
fill_module-SameBelow n data_ len name m b h = fill_module_frame n data_ len name m b (inl h)

load_bytes-strcpy :
    (m : Mem) (a : ℕ) (s : Bytes) → load_bytes (strcpy m a s) a (length s + 1) ≡ s ++ (0 ∷ [])
unfolding strcpy write8 load_bytes
load_bytes-strcpy m a [] = let here : (if a == a then 0 else m a) ≡ 0 = ground arith in rw here refl
load_bytes-strcpy m a (c ∷ s) =
    let more : suc (length s) + 1 ≡ suc (length s + 1) = omega arith in
    let here : strcpy (write8 m a c) (a + 1) s a ≡ c =
      strcpy_frame (write8 m a c) (a + 1) s a (inl (omega arith)) ∙ ground arith in
    rw (more, here) (ap (λ (t : Bytes). c ∷ t) (load_bytes-strcpy (write8 m a c) (a + 1) s))

-- A module's structure, with its name behind it: what the pointers and the length say, and the name's bytes.
pub record IsModule (m : Mem) (n data_ len : ℕ) (name : Bytes) : Type 0 where
  pub name_field : read32 m (n + 8) ≡ n + sizeof_module
  pub data_field : read32 m (n + 28) ≡ data_
  pub length_field : read32 m (n + 32) ≡ len
  pub text : load_bytes m (n + sizeof_module) (length name + 1) ≡ name ++ (0 ∷ [])

-- What stands between the name's pointer and the data's does not matter.
pub IsModule-parts :
    (m m' : Mem) (n data_ len : ℕ) (name : Bytes)
    → IsModule m n data_ len name
    → SameWithin (n + 8) (n + 12) m m'
    → SameWithin (n + 28) (n + (sizeof_module + length name + 1)) m m'
    → IsModule m' n data_ len name
IsModule-parts m m' n data_ len name k h h' =
    let low = n + 28 in
    let top = n + (sizeof_module + length name + 1) in
    record {
      name_field =
          read32-SameWithin (n + 8) (n + 12) (n + 8) m m' h (omega arith) (omega arith)
          ∙ k.name_field;
      data_field =
          read32-SameWithin low top (n + 28) m m' h' (omega arith) (omega arith) ∙ k.data_field;
      length_field =
          read32-SameWithin low top (n + 32) m m' h' (omega arith) (omega arith) ∙ k.length_field;
      text =
          load_bytes-SameWithin low top (n + sizeof_module) (length name + 1) m m' h' (omega arith)
            (omega arith)
          ∙ k.text;
    }

pub IsModule-SameWithin :
    (m m' : Mem) (n data_ len : ℕ) (name : Bytes)
    → IsModule m n data_ len name
    → SameWithin (n + 8) (n + (sizeof_module + length name + 1)) m m'
    → IsModule m' n data_ len name
IsModule-SameWithin m m' n data_ len name k h =
    IsModule-parts m m' n data_ len name k (λ b low high. h b low (omega arith))
      (λ b low high. h b (omega arith) high)

pub fill_module-IsModule :
    (n data_ len : ℕ) (name : Bytes) (m : Mem)
    → n + sizeof_module < word
    → data_ < word
    → len < word
    → IsModule (fill_module n data_ len name m) n data_ len name
unfolding fill_module
fill_module-IsModule n data_ len name m a b c =
    let m1 = strcpy m (n + sizeof_module) name in
    let m2 = write32 m1 (n + 8) (n + sizeof_module) in
    let m3 = write32 m2 (n + 12) 0 in
    let m4 = write16 m3 (n + 16) 2 in
    let m5 = write16 m4 (n + 18) 3 in
    let m6 = write32 m5 (n + 20) (n + 20) in
    let m7 = write32 m6 (n + 24) (n + 24) in
    let m8 = write32 m7 (n + 28) data_ in
    let m9 = write32 m8 (n + 32) len in
    let behind = λ (d : ℕ) (out : Outside (n + 12) (n + sizeof_module) d).
      write32_other m8 (n + 32) len d (omega (arith, out))
      ∙ write32_other m7 (n + 28) data_ d (omega (arith, out))
      ∙ write32_other m6 (n + 24) (n + 24) d (omega (arith, out))
      ∙ write32_other m5 (n + 20) (n + 20) d (omega (arith, out))
      ∙ write16_frame m4 (n + 18) 3 d (omega (arith, out))
      ∙ write16_frame m3 (n + 16) 2 d (omega (arith, out))
      ∙ write32_other m2 (n + 12) 0 d (omega (arith, out)) in
    record {
      name_field =
          read32-SameWithin (n + 8) (n + 12) (n + 8) m2 m9 (λ d low high. behind d (inl high))
            (omega arith) (omega arith)
          ∙ read32-write32 m1 (n + 8) (n + sizeof_module) a;
      data_field =
          read32-write32_other m8 (n + 32) len (n + 28) (omega arith)
          ∙ read32-write32 m7 (n + 28) data_ b;
      length_field = read32-write32 m8 (n + 32) len c;
      text =
          load_bytes-SameWithin (n + sizeof_module) (n + (sizeof_module + length name + 1))
            (n + sizeof_module) (length name + 1) m1 m9
            (λ d low high.
              behind d (inr low) ∙ write32_other m1 (n + 8) (n + sizeof_module) d (omega arith))
            (omega arith) (omega arith)
          ∙ load_bytes-strcpy m (n + sizeof_module) name;
    }
