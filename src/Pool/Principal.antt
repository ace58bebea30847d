-- ===== src/Pool/Principal.antt =====
-- src/pool/principal.rs: a user address or a contract.
use stacks_dex_pool.Prelude.{ℕ, ◌≡◌, Bool, true, false, ◌&&◌, Option, none, some, List, arith, ◌==◌}
use stacks_dex_pool.Prelude.Text.{Text, text_eq, text_eq_refl, eq_of_text_eq}

-- The version byte and the 20 bytes of the hash; a contract has a name too.
pub data Principal : Type 0 where
  standard : ℕ → List ℕ → Principal
  contract : ℕ → List ℕ → Text → Principal

unfoldable pub is_contract_named : Principal → Text → Bool
is_contract_named (standard _ _) name = false
is_contract_named (contract _ _ n) name = text_eq n name

unfoldable pub contract_name : Principal → Option Text
contract_name (standard _ _) = none
contract_name (contract _ _ name) = some name

unfoldable pub address : Principal → ℕ × List ℕ
address (standard version hash160) = (version, hash160)
address (contract version hash160 _) = (version, hash160)

-- The derived `PartialEq`.
unfoldable pub principal_eq : Principal → Principal → Bool
principal_eq (standard v h) (standard w k) = (v == w) && text_eq h k
principal_eq (standard _ _) (contract _ _ _) = false
principal_eq (contract _ _ _) (standard _ _) = false
principal_eq (contract v h n) (contract w k m) = (v == w) && (text_eq h k && text_eq n m)

pub principal_eq_refl : (p : Principal) → principal_eq p p ≡ true
unfolding principal_eq
principal_eq_refl (standard v h) = ground (arith, text_eq_refl h)
principal_eq_refl (contract v h n) = ground (arith, text_eq_refl h, text_eq_refl n)

pub eq_of_principal_eq : (p q : Principal) → principal_eq p q ≡ true → p ≡ q
unfolding principal_eq
eq_of_principal_eq (standard v h) (standard w k) e = ground (arith, eq_of_text_eq h k)
eq_of_principal_eq (standard v h) (contract w k m) e = cc
eq_of_principal_eq (contract v h n) (standard w k) e = cc
eq_of_principal_eq (contract v h n) (contract w k m) e =
    ground (arith, eq_of_text_eq h k, eq_of_text_eq n m)
