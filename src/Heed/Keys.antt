-- ===== src/Heed/Keys.antt =====
-- The keys of src/heed.rs: the index ID, one byte for the kind of cell, and the UID of a value.
use findex_cloud.Base.{ℕ, Bytes, [], ◌∷◌, ◌++◌, ◌≡◌, ◌≢◌, refl, arith}
use findex_cloud.Core.{Table, Uid}
use findex_cloud.Spec.{Layout, IsInjective}
use findex_cloud.Spec.Keys.{tagged_injective, tagged_ne}

pub data Prefix : Type 0 where
  entries chains size : Prefix

unfoldable pub table_to_prefix : Table → Prefix
table_to_prefix Table.entries = Prefix.entries
table_to_prefix Table.chains = Prefix.chains

-- `prefix as u8` under `repr(u8)`
abbrev pub prefix_byte : Prefix → ℕ
prefix_byte Prefix.entries = 0
prefix_byte Prefix.chains = 1
prefix_byte Prefix.size = 2

unfoldable pub key : Bytes → Table → Uid → Bytes
unfolding table_to_prefix
key id table uid = id ++ (prefix_byte (table_to_prefix table) ∷ [] ++ uid)

unfoldable pub size_key : Bytes → Bytes
size_key id = id ++ prefix_byte Prefix.size ∷ []

abbrev pub layout : Layout
layout = record { key = key; size_key = size_key }

prefix_byte-injective :
    (t u : Table) → prefix_byte (table_to_prefix t) ≡ prefix_byte (table_to_prefix u) → t ≡ u
unfolding table_to_prefix
prefix_byte-injective Table.entries Table.entries e = refl
prefix_byte-injective Table.chains Table.chains e = refl
prefix_byte-injective Table.entries Table.chains e = absurd (omega arith)
prefix_byte-injective Table.chains Table.entries e = absurd (omega arith)

prefix_byte-lt : (t : Table) → prefix_byte (table_to_prefix t) ≢ 2
unfolding table_to_prefix
prefix_byte-lt Table.entries = omega arith
prefix_byte-lt Table.chains = omega arith

-- Among UIDs of one length no two cells of LMDB have one key, no two indexes have one size cell,
-- and for IDs of one length no value stands in a size cell.
pub layout-IsInjective : IsInjective layout
unfolding key size_key
layout-IsInjective = record {
  key_injective = λ i j t u x y same e.
      let (ids, bytes, uids) = tagged_injective i j _ _ x y same e in
      (ids, prefix_byte-injective t u bytes, uids);
  size_key_injective = λ i j e. (tagged_injective i j 2 2 [] [] refl e).0;
  key-ne-size_key = λ i j t x same. tagged_ne i j _ 2 x [] same (prefix_byte-lt t);
}
