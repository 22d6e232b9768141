-- ===== src/ProofCore/Manifest/Groups.antt =====
-- The groups of `buildProofShardGroups` and the manifest (packages/proof-core/src/manifest.ts).
use mathlib.Core.List.{Perm, perm_middle}
use mathlib.Core.List.Perm
use sonari.Prelude.{
  ℕ, ◌==◌, ◌≡◌, refl, sym, ap, subst, Option, none, some, List, [], ◌∷◌, ◌++◌, map, ok, length, All,
  All-append, ok-injective, some-cancel, none-some, >>=-elim_ok, arith, Bool-cases, inl, inr,
  traverse, expect_some, String,
}
use sonari.Prelude.Sorting.{sort_from, All-sort_from}
use sonari.ProofCore.Decimal.{big_int}
use sonari.ProofCore.Merkle.{Hash}
use sonari.ProofCore.Manifest.{
  ProofEntry, ProofShardGroup, Shards, add_to_shard, get_shard, keyed_entry, sort_proofs, shard_of,
  group_entries, group_of,
}
use sonari.ProofCore.Manifest.Shards.{
  content, add_to_shard-perm, AreDistinct, add_to_shard-AreDistinct, proofs_at, proofs_of, pick,
  sort_proofs-perm,
}

-- All entries of the groups.
abbrev pub gather : List ProofShardGroup → List ProofEntry
gather [] = []
gather (group ∷ groups) = group.proofs ++ gather groups

expect_some-some :
    {A : Type 0} (found : Option A) (message : String) {value : A}
    → expect_some found message ≡ ok value
    → found ≡ some value
expect_some-some none message e = absurd (cc)
expect_some-some (some a) message e = ap (λ v. some v) (ok-injective e)

module _ (P : ProofEntry → Type 0) where
  keyed-All :
      (entries : List ProofEntry) {keyed : List (ℕ × ProofEntry)}
      → traverse keyed_entry entries ≡ ok keyed
      → All P entries
      → All (λ k. P k.1) keyed
  unfolding keyed_entry
  keyed-All [] e h = subst (All (λ k. P k.1)) (ok-injective e) tt
  keyed-All (entry ∷ entries) e (p, h) = >>=-elim_ok (keyed_entry entry) _ e λ k k_ok e'.
      >>=-elim_ok (traverse keyed_entry entries) _ e' λ rest rest_ok done.
        >>=-elim_ok (big_int entry.h3_index) _ k_ok λ key _ k_done.
          subst (All (λ k. P k.1)) (ok-injective done)
            (subst (λ k. P k.1) (ok-injective k_done) p, keyed-All entries rest_ok h)

  entries-All :
      (keyed : List (ℕ × ProofEntry)) → All (λ k. P k.1) keyed → All P (map (λ k. k.1) keyed)
  entries-All [] h = tt
  entries-All (k ∷ keyed) (p, h) = (p, entries-All keyed h)

  sort_proofs-All :
      (entries proofs : List ProofEntry)
      → sort_proofs entries ≡ ok proofs
      → All P entries
      → All P proofs
  unfolding sort_proofs
  sort_proofs-All entries proofs e h =
      >>=-elim_ok (traverse keyed_entry entries) _ e λ keyed keyed_ok done.
        subst (All P) (ok-injective done) (
          entries-All (sort_from [] keyed)
            (All-sort_from (λ k. P k.1) [] keyed tt (keyed-All entries keyed_ok h)))

module _ (sha256 : Hash) (shard_count : ℕ) where
  -- An entry is in the shard that its index names.
  abbrev pub IsIn : ℕ → ProofEntry → Type 0
  IsIn id entry = shard_of sha256 shard_count entry ≡ ok id

  abbrev pub AreShelved : Shards → Type 0
  AreShelved shards = All (λ shard. All (IsIn shard.0) shard.1) shards

  add_to_shard-AreShelved :
      (id : ℕ) (entry : ProofEntry) (shards : Shards)
      → IsIn id entry
      → AreShelved shards
      → AreShelved (add_to_shard id entry shards)
  unfolding add_to_shard
  add_to_shard-AreShelved id entry [] in_it h = ((in_it, tt), tt)
  add_to_shard-AreShelved id entry ((j, entries) ∷ shards) in_it (p, h) =
      elim (Bool-cases (j == id)) [
        | inl here ↦
            let same : id ≡ j = ground arith in
            rw here (
              All-append (IsIn j) entries (entry ∷ []) p (subst (λ k. IsIn k entry) same in_it, tt),
              h,
            )
        | inr later ↦ rw later (p, add_to_shard-AreShelved id entry shards in_it h)
      ]

  get_shard-AreShelved :
      (id : ℕ) (shards : Shards) {found : List ProofEntry}
      → AreShelved shards
      → get_shard id shards ≡ some found
      → All (IsIn id) found
  unfolding get_shard
  get_shard-AreShelved id [] h e = absurd (none-some e)
  get_shard-AreShelved id ((j, entries) ∷ shards) (p, h) e = elim (Bool-cases (j == id)) [
    | inl here ↦
        let same : j ≡ id = ground arith in
        subst (All (IsIn id)) (some-cancel (rw here at e))
          (subst (λ k. All (IsIn k) entries) same p)
    | inr later ↦ get_shard-AreShelved id shards h (rw later at e)
  ]

  pub record Grouped (entries : List ProofEntry) (before shards : Shards) : Type 0 where
    pub all_there : Perm (content shards) (entries ++ content before)
    pub distinct : AreDistinct shards
    pub shelved : AreShelved shards

  pub group_entries-Grouped :
      (entries : List ProofEntry) (before : Shards) {shards : Shards}
      → group_entries sha256 shard_count entries before ≡ ok shards
      → AreDistinct before
      → AreShelved before
      → Grouped entries before shards
  unfolding group_entries
  group_entries-Grouped [] before e d h =
      subst (Grouped [] before) (ok-injective e)
        (record { all_there = Perm.refl _; distinct = d; shelved = h })
  group_entries-Grouped (entry ∷ entries) before e d h =
      >>=-elim_ok (shard_of sha256 shard_count entry) _ e λ id in_it rest_ok.
        let rest =
          group_entries-Grouped entries (add_to_shard id entry before) rest_ok
            (add_to_shard-AreDistinct id entry before d)
            (add_to_shard-AreShelved id entry before in_it h) in
        record {
          all_there = Perm.trans rest.all_there (
              Perm.trans (Perm.append_left entries (add_to_shard-perm id entry before))
                (perm_middle entries (content before)));
          distinct = rest.distinct;
          shelved = rest.shelved;
        }

  -- What is in a group.
  abbrev pub IsShard : ProofShardGroup → Type 0
  IsShard group = (group.proof_count ≡ length group.proofs) × All (IsIn group.shard_id) group.proofs

  group_of-IsShard :
      (shards : Shards) (id : ℕ) {group : ProofShardGroup}
      → AreShelved shards
      → group_of sha256 shards id ≡ ok group
      → Perm group.proofs (proofs_at shards id) × IsShard group
  unfolding group_of
  group_of-IsShard shards id {group} h e =
      >>=-elim_ok (expect_some (get_shard id shards) _) _ e λ found got e'.
        >>=-elim_ok (sort_proofs found) _ e' λ proofs proofs_ok done.
          let got_it = expect_some-some (get_shard id shards) _ got in
          subst (λ g. Perm g.proofs (proofs_at shards id) × IsShard g) (ok-injective done)
            (
              subst (λ f. Perm proofs (proofs_of f)) (sym got_it)
                  (sort_proofs-perm found proofs proofs_ok),
              (
                refl,
                sort_proofs-All (IsIn id) found proofs proofs_ok
                    (get_shard-AreShelved id shards h got_it),
              ),
            )

  pub groups-AreShards :
      (shards : Shards) (ids : List ℕ) {groups : List ProofShardGroup}
      → AreShelved shards
      → traverse (group_of sha256 shards) ids ≡ ok groups
      → Perm (gather groups) (pick shards ids) × All IsShard groups
  groups-AreShards shards [] h e =
      subst (λ gs. Perm (gather gs) [] × All IsShard gs) (ok-injective e) (Perm.refl _, tt)
  groups-AreShards shards (id ∷ ids) h e =
      >>=-elim_ok (group_of sha256 shards id) _ e λ group group_ok e'.
        >>=-elim_ok (traverse (group_of sha256 shards) ids) _ e' λ rest rest_ok done.
          let (here, is_shard) = group_of-IsShard shards id h group_ok in
          let (there, are_shards) = groups-AreShards shards ids h rest_ok in
          subst (λ gs. Perm (gather gs) (pick shards (id ∷ ids)) × All IsShard gs)
            (ok-injective done) (Perm.append here there, (is_shard, are_shards))
