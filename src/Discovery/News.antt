-- ===== src/Discovery/News.antt =====
-- What the plugins of crates/pmd-broadcast and crates/pmd-azure have to report of what they hear: the
-- first word of each other node.
use pmd.Prelude.{
  String, ◌≡◌, true, false, ◌||◌, List, [], ◌∷◌, arith, ◌==◌, eq_iff, eq_refl, if◌then◌else◌,
}
use pmd.Prelude.Sets.{contains, contains-append, insert_new}

module _ {ℓ} {A : Type ℓ} (key : A → String) (own : String) where
  -- The elements that name another node than `own`, and one that no earlier element names.
  abbrev pub firsts : List String → List A → List A
  firsts earlier [] = []
  firsts earlier (x ∷ xs) =
      let rest = firsts (key x ∷ earlier) xs in
      if key x == own || contains (key x) earlier then rest else x ∷ rest

-- A set holds the nodes that were named, other than `own`.
abbrev pub Agree : String → List String → List String → Type 0
Agree own known earlier = (k : String) → (k == own) ≡ false → contains k known ≡ contains k earlier

pub Agree-own :
    (own : String) (known earlier : List String) (x : String)
    → Agree own known earlier
    → (x == own) ≡ true
    → Agree own known (x ∷ earlier)
Agree-own own known earlier x h e k ne = ground (arith, h k, eq_iff x own, eq_iff x k, eq_iff k own)

pub Agree-insert_new :
    (own : String) (known earlier : List String) (x : String)
    → Agree own known earlier
    → Agree own (insert_new x known).0 (x ∷ earlier)
Agree-insert_new own known earlier x h k ne =
    ground (arith, h k, eq_iff x k, eq_refl x, contains-append k known (x ∷ []))
