-- ===== src/ProofCore/Manifest/Shards.antt =====
-- The shards of `buildProofShardGroups` (packages/proof-core/src/manifest.ts).
use mathlib.Core.List.{append_assoc, append-nil, Perm, perm_middle, perm_append_comm}
use mathlib.Core.List.Perm
use mathlib.Core.List.Permᴰ.{Permᴰ}
use mathlib.Core.Logic.{∥∥₁_elim, ∥∥₁_prop}
use sonari.Prelude.{
  ℕ, ◌==◌, ◌≡◌, refl, sym, ap, ap₂, subst, ◌∙◌, true, false, Option, none, some, List, [], ◌∷◌,
  ◌++◌, map, ok, All, ok-injective, >>=-elim_ok, arith, Bool-cases, inl, inr, traverse,
  traverse-map,
}
use sonari.Prelude.Sorting.{sort_from, sort_from-perm}
use sonari.ProofCore.Decimal.{big_int}
use sonari.ProofCore.Manifest.{
  ProofEntry, Shards, add_to_shard, get_shard, sorted_ids, keyed_entry, sort_proofs,
}

-- All entries of a map.
abbrev pub content : Shards → List ProofEntry
content [] = []
content (shard ∷ shards) = shard.1 ++ content shards

pub add_to_shard-perm :
    (id : ℕ) (entry : ProofEntry) (shards : Shards)
    → Perm (content (add_to_shard id entry shards)) (entry ∷ content shards)
unfolding add_to_shard
add_to_shard-perm id entry [] = Perm.refl _
add_to_shard-perm id entry ((k, entries) ∷ shards) = elim (Bool-cases (k == id)) [
  | inl here ↦ rw here (
      subst (λ l. Perm l (entry ∷ (entries ++ content shards)))
        (sym (append_assoc entries (entry ∷ []) (content shards)))
        (perm_middle entries (content shards)))
  | inr later ↦ rw later (
      Perm.trans (Perm.append_left entries (add_to_shard-perm id entry shards))
        (perm_middle entries (content shards)))
]

-- The keys of a map are apart from one, and from each other.
abbrev IsNew : ℕ → Shards → Type 0
IsNew id shards = All (λ shard. (id == shard.0) ≡ false) shards

abbrev pub AreDistinct : Shards → Type 0
AreDistinct [] = Unit
AreDistinct (shard ∷ shards) = IsNew shard.0 shards × AreDistinct shards

add_to_shard-IsNew :
    (k id : ℕ) (entry : ProofEntry) (shards : Shards)
    → (k == id) ≡ false
    → IsNew k shards
    → IsNew k (add_to_shard id entry shards)
unfolding add_to_shard
add_to_shard-IsNew k id entry [] other new = (other, tt)
add_to_shard-IsNew k id entry ((j, entries) ∷ shards) other (apart, new) =
    elim (Bool-cases (j == id)) [
      | inl here ↦ rw here (apart, new)
      | inr later ↦ rw later (apart, add_to_shard-IsNew k id entry shards other new)
    ]

pub add_to_shard-AreDistinct :
    (id : ℕ) (entry : ProofEntry) (shards : Shards)
    → AreDistinct shards
    → AreDistinct (add_to_shard id entry shards)
unfolding add_to_shard
add_to_shard-AreDistinct id entry [] distinct = (tt, tt)
add_to_shard-AreDistinct id entry ((j, entries) ∷ shards) (new, distinct) =
    elim (Bool-cases (j == id)) [
      | inl here ↦ rw here (new, distinct)
      | inr later ↦ rw later (
        add_to_shard-IsNew j id entry shards later new,
        add_to_shard-AreDistinct id entry shards distinct,
      )
    ]

-- The entries of the shards with the given ids.
abbrev pub proofs_of : Option (List ProofEntry) → List ProofEntry
proofs_of none = []
proofs_of (some entries) = entries

abbrev pub proofs_at : Shards → ℕ → List ProofEntry
proofs_at shards id = proofs_of (get_shard id shards)

abbrev pub pick : Shards → List ℕ → List ProofEntry
pick shards [] = []
pick shards (id ∷ ids) = proofs_at shards id ++ pick shards ids

get_shard-passed :
    (id k : ℕ) (entries : List ProofEntry) (shards : Shards)
    → (id == k) ≡ false
    → get_shard k ((id, entries) ∷ shards) ≡ get_shard k shards
unfolding get_shard
get_shard-passed id k entries shards other = rw other refl

get_shard-here :
    (id : ℕ) (entries : List ProofEntry) (shards : Shards)
    → get_shard id ((id, entries) ∷ shards) ≡ some entries
unfolding get_shard
get_shard-here id entries shards = let self : (id == id) ≡ true = ground arith in rw self refl

pick-passed :
    (id : ℕ) (entries : List ProofEntry) (shards rest : Shards)
    → IsNew id rest
    → pick ((id, entries) ∷ shards) (map (λ s. s.0) rest) ≡ pick shards (map (λ s. s.0) rest)
pick-passed id entries shards [] new = refl
pick-passed id entries shards (shard ∷ rest) (other, new) =
    ap₂ (λ found picked. proofs_of found ++ picked)
      (get_shard-passed id shard.0 entries shards other) (pick-passed id entries shards rest new)

pub pick-content :
    (shards : Shards) → AreDistinct shards → pick shards (map (λ s. s.0) shards) ≡ content shards
pick-content [] distinct = refl
pick-content ((id, entries) ∷ shards) (new, distinct) =
    ap₂ (λ found picked. proofs_of found ++ picked) (get_shard-here id entries shards)
      (pick-passed id entries shards shards new ∙ pick-content shards distinct)

blocks-swap : (x y z : List ProofEntry) → Perm (x ++ (y ++ z)) (y ++ (x ++ z))
blocks-swap x y z =
    subst (λ l. Perm l (y ++ (x ++ z))) (append_assoc x y z)
      (subst (Perm ((x ++ y) ++ z)) (append_assoc y x z)
        (Perm.append_right z (perm_append_comm x y)))

pick-perm_steps :
    (shards : Shards) {ids ids' : List ℕ}
    → Permᴰ ids ids'
    → Perm (pick shards ids) (pick shards ids')
pick-perm_steps shards Permᴰ.nil = Perm.refl _
pick-perm_steps shards (Permᴰ.cons {b = b} {l₁ = l₁} {l₂ = l₂} same p) =
    rw same (Perm.append_left (proofs_at shards b) (pick-perm_steps shards p))
pick-perm_steps shards (Permᴰ.swap {a' = a'} {b' = b'} {l = l} same same') =
    rw same (rw same' (blocks-swap (proofs_at shards b') (proofs_at shards a') (pick shards l)))
pick-perm_steps shards (Permᴰ.trans p q) =
    Perm.trans (pick-perm_steps shards p) (pick-perm_steps shards q)

pub pick-perm :
    (shards : Shards) (ids ids' : List ℕ)
    → Perm ids ids'
    → Perm (pick shards ids) (pick shards ids')
pick-perm shards ids ids' p = ∥∥₁_elim p ∥∥₁_prop (pick-perm_steps shards)

pub sorted_ids-perm : (shards : Shards) → Perm (sorted_ids shards) (map (λ s. s.0) shards)
unfolding sorted_ids
sorted_ids-perm shards =
    subst (Perm (sorted_ids shards)) (ap (map (λ (k : ℕ × ℕ). k.1)) (append-nil _) ∙ ids_lem shards)
      (Perm.map (λ (k : ℕ × ℕ). k.1)
        (sort_from-perm [] (map (λ (s : ℕ × List ProofEntry). (s.0, s.0)) shards)))
  where
    ids_lem :
        (rest : Shards)
        → map (λ (k : ℕ × ℕ). k.1) (map (λ (s : ℕ × List ProofEntry). (s.0, s.0)) rest)
          ≡ map (λ s. s.0) rest
    ids_lem [] = refl
    ids_lem (shard ∷ rest) = ap (λ t. shard.0 ∷ t) (ids_lem rest)

keyed_entry-entry :
    (entry : ProofEntry) (keyed : ℕ × ProofEntry) → keyed_entry entry ≡ ok keyed → keyed.1 ≡ entry
unfolding keyed_entry
keyed_entry-entry entry keyed e =
    >>=-elim_ok (big_int entry.h3_index) _ e λ key _ done. ap (λ k. k.1) (sym (ok-injective done))

pub sort_proofs-perm :
    (entries proofs : List ProofEntry) → sort_proofs entries ≡ ok proofs → Perm proofs entries
unfolding sort_proofs
sort_proofs-perm entries proofs e =
    >>=-elim_ok (traverse keyed_entry entries) _ e λ keyed keyed_ok done.
      subst (λ sorted. Perm sorted entries) (ok-injective done)
        (subst (Perm (map (λ k. k.1) (sort_from [] keyed)))
          (ap (map (λ k. k.1)) (append-nil keyed)
            ∙ traverse-map keyed_entry (λ entry. entry) (λ k. k.1) keyed_entry-entry entries
                keyed_ok
            ∙ map_self entries)
          (Perm.map (λ k. k.1) (sort_from-perm [] keyed)))
  where
    map_self : (rest : List ProofEntry) → map (λ entry. entry) rest ≡ rest
    map_self [] = refl
    map_self (entry ∷ rest) = ap (λ t. entry ∷ t) (map_self rest)
