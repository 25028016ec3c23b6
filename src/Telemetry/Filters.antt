-- ===== src/Telemetry/Filters.antt =====
-- Which topics the broker filters of src/mcp_venus_os/telemetry.py cover.
use mathlib.Core.List.{Memᴰ}
use mcp_venus_os.Prelude.{
  ◌≡◌, subst, String, ◌<>◌, Bool, true, ◌||◌, List, [], ◌∷◌, any, add, elem, elem-add, elem-add_all,
  arith, str_eq, str_eq_iff, inl, inr, if◌then◌else◌, Bool-cases,
}
use mcp_venus_os.Hardware.{HardwareWriteContract}
use mcp_venus_os.Telemetry.{
  topics_of, contract_topics_from, contract_topics, base_filters, cover, subscriptions,
}

-- The contract topics are the topics of the contracts of this portal.
contract_topics_from-keeps :
    (prefix t : String) (cs : List HardwareWriteContract) (topics : List String)
    → elem t topics ≡ true
    → elem t (contract_topics_from prefix cs topics) ≡ true
unfolding contract_topics_from
contract_topics_from-keeps prefix t [] topics h = h
contract_topics_from-keeps prefix t (c ∷ cs) topics h =
    contract_topics_from-keeps prefix t cs _
      (ground (arith, elem-add_all t (topics_of prefix c) topics))

contract_topics_from-head :
    (prefix t : String) (c : HardwareWriteContract) (cs : List HardwareWriteContract)
    (topics : List String)
    → prefix ≡ "N/" <> c.portal_id
    → elem t (topics_of prefix c) ≡ true
    → elem t (contract_topics_from prefix (c ∷ cs) topics) ≡ true
unfolding contract_topics_from
contract_topics_from-head prefix t c cs topics p h =
    let same = (str_eq_iff prefix ("N/" <> c.portal_id)).1 p in
    contract_topics_from-keeps prefix t cs _
      (ground (arith, elem-add_all t (topics_of prefix c) topics))

contract_topics_from-elem :
    (prefix t : String) (c : HardwareWriteContract) (cs : List HardwareWriteContract)
    (topics : List String)
    → Memᴰ c cs
    → prefix ≡ "N/" <> c.portal_id
    → elem t (topics_of prefix c) ≡ true
    → elem t (contract_topics_from prefix cs topics) ≡ true
unfolding contract_topics_from
contract_topics_from-elem prefix t c (d ∷ cs) topics (Memᴰ.head e) p h =
    subst (λ x. elem t (contract_topics_from prefix (x ∷ cs) topics) ≡ true) e
      (contract_topics_from-head prefix t c cs topics p h)
contract_topics_from-elem prefix t c (d ∷ cs) topics (Memᴰ.tail m) p h =
    contract_topics_from-elem prefix t c cs _ m p h
contract_topics_from-elem prefix t c [] topics m p h = elim m [ ]

module _ (matches : String → String → Bool) (t : String) where
  abbrev covered : List String → Bool
  covered = any (λ pattern. matches pattern t)

  covered-add :
      (x : String) (filters : List String) → covered filters ≡ true → covered (add x filters) ≡ true
  covered-add x filters h = ground arith

  covered_self :
      (filters : List String) → matches t t ≡ true → elem t filters ≡ true → covered filters ≡ true
  covered_self (f ∷ fs) m h = ground (arith, str_eq_iff t f, covered_self fs m)
  covered_self [] m h = absurd (cc h)

  cover-keeps :
      (topics filters : List String)
      → covered filters ≡ true
      → covered (cover matches topics filters) ≡ true
  unfolding cover
  cover-keeps [] filters h = h
  cover-keeps (x ∷ xs) filters h = cover-keeps xs _ (ground (arith, covered-add x filters))

  covered_now :
      (filters : List String)
      → matches t t ≡ true
      → covered (if covered filters then filters else add t filters) ≡ true
  covered_now filters m = ground (arith, covered_self filters m)

  cover-covers :
      (topics filters : List String)
      → matches t t ≡ true
      → elem t topics ≡ true
      → covered (cover matches topics filters) ≡ true
  unfolding cover
  cover-covers [] filters m h = absurd (cc h)
  cover-covers (x ∷ xs) filters m h = elim (Bool-cases (str_eq t x)) [
    | inl e ↦ cover-keeps xs _ (
        subst
          (λ y.
            covered (if any (λ pattern. matches pattern y) filters then filters else add y filters)
            ≡ true)
          ((str_eq_iff t x).0 e) (covered_now filters m))
    | inr e ↦ cover-covers xs _ m (ground arith)
  ]

-- Every topic of a contract for this portal, its target and its identity probes, is covered by a
-- filter of the subscriptions, if the broker's matcher matches that topic with itself.
pub subscriptions_cover :
    (matches : String → String → Bool) (prefix t : String) (c : HardwareWriteContract)
    (contracts : List HardwareWriteContract)
    → Memᴰ c contracts
    → prefix ≡ "N/" <> c.portal_id
    → elem t (topics_of prefix c) ≡ true
    → matches t t ≡ true
    → any (λ pattern. matches pattern t) (subscriptions matches prefix contracts) ≡ true
unfolding subscriptions contract_topics
subscriptions_cover matches prefix t c contracts m p h same =
    cover-covers matches t (contract_topics_from prefix contracts []) (base_filters prefix) same
      (contract_topics_from-elem prefix t c contracts [] m p h)

cover-elem :
    (matches : String → String → Bool) (x : String) (topics filters : List String)
    → elem x (cover matches topics filters) ≡ true
    → (elem x topics || elem x filters) ≡ true
unfolding cover
cover-elem matches x [] filters h = h
cover-elem matches x (y ∷ ys) filters h =
    let next = if any (λ pattern. matches pattern y) filters then filters else add y filters in
    ground (arith, cover-elem matches x ys next, elem-add x y filters)

-- Every subscribed filter is one of the fixed filters of the portal or an exact contract topic.
pub subscriptions_narrow :
    (matches : String → String → Bool) (prefix x : String) (contracts : List HardwareWriteContract)
    → elem x (subscriptions matches prefix contracts) ≡ true
    → (elem x (contract_topics prefix contracts) || elem x (base_filters prefix)) ≡ true
unfolding subscriptions
subscriptions_narrow matches prefix x contracts h =
    cover-elem matches x (contract_topics prefix contracts) (base_filters prefix) h
