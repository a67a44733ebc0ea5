-- ===== src/Engine/Replication.antt =====
-- `ReplicateToQuorum` of src/replication.cpp. The answers of the peers, in their order, are an argument:
-- one that fails, or is not there when the wait for it ends, is false.
use vault_vk.Common.{
  ℕ, suc, ◌+◌, ◌≤◌, ◌≡◌, Bool, not, ◌||◌, ◌&&◌, List, [], ◌∷◌, leb, ◌==◌, if◌then◌else◌, arith,
}
use vault_vk.Text.{codes}
use vault_vk.Engine.Status.{is_ok, failure, code_no_quorum, Result, ok_of, err}

unfoldable pub count_acks : ℕ → ℕ → ℕ → List Bool → Result ℕ
count_acks seq quorum n [] = err (failure code_no_quorum (codes "quorum not reached"))
count_acks seq quorum n (ack ∷ acks) =
    let more = count_acks seq quorum (suc n) acks in
    let same = count_acks seq quorum n acks in
    if ack then (if leb quorum (suc n) then ok_of (suc n) seq else more) else same

unfoldable pub replicate_to_quorum : Bool → ℕ → ℕ → List Bool → Result ℕ
unfolding count_acks
replicate_to_quorum transport seq quorum acks =
    let size = if quorum == 0 then 1 else quorum in
    if leb size 1
    then ok_of 1 seq
    else if not transport
    then err (failure code_no_quorum (codes "replication transport not configured"))
    else elim acks [
      | [] ↦ err (failure code_no_quorum (codes "no replication peers configured"))
      | ack ∷ more ↦ count_acks seq size 1 (ack ∷ more)
    ]

abbrev pub positives : List Bool → ℕ
positives [] = 0
positives (ack ∷ acks) = if ack then suc (positives acks) else positives acks

count_acks-is_ok :
    (seq quorum n : ℕ) (acks : List Bool)
    → suc n ≤ quorum
    → is_ok (count_acks seq quorum n acks).status ≡ leb quorum (n + positives acks)
unfolding count_acks
count_acks-is_ok seq quorum n [] h = ground arith
count_acks-is_ok seq quorum n (ack ∷ acks) h =
    ground (arith, count_acks-is_ok seq quorum (suc n) acks, count_acks-is_ok seq quorum n acks)

-- Replication succeeds exactly when no other node is needed, or there is a transport and the node
-- itself with the peers that acknowledge in time make up the quorum.
pub replicate_to_quorum-is_ok :
    (transport : Bool) (seq quorum : ℕ) (acks : List Bool)
    → is_ok (replicate_to_quorum transport seq quorum acks).status
      ≡ (leb quorum 1 || (transport && leb quorum (1 + positives acks)))
unfolding replicate_to_quorum
replicate_to_quorum-is_ok transport seq quorum [] = ground arith
replicate_to_quorum-is_ok transport seq quorum (ack ∷ acks) =
    ground (arith, count_acks-is_ok seq quorum 1 (ack ∷ acks))
