-- ===== src/Tools/Laws.antt =====
-- What the registry promises, and how it agrees with the sets of the permission engine.
use pi_development_agent.Base.{
  ◌≤◌, Bool, true, false, not, ◌&&◌, ◌||◌, String, string_Eq, elem, List, [], ◌∷◌, none, some,
  lookup, all, map, In, here, there, ◌==◌, nat_Eq, leb, arith, ◌≡◌, ◌≢◌, ◌↔◌, refl, sym, subst,
  list_Eq, list_same_iff, In-filter_inv, Option-cases, Bool-cases, inl, inr,
}
use text.Mathlib.TextEquality.{eq_iff}
use pi_development_agent.Tools.Entry.{ToolRegistryEntry}
use pi_development_agent.Tools.Registry.{
  Registry, tool_registry, ok, validate_tool_call, safe_tools_for_erp, values,
}
use pi_development_agent.Permissions.Engine.{always_allowed, always_require_approval}

-- A call is validated exactly when its tool is registered and made for the engine, and then with
-- the tool's entry.
pub validate_tool_call-ok :
    (registry : Registry) (tool_name erp_type : String) (e : ToolRegistryEntry)
    → (validate_tool_call registry tool_name erp_type ≡ ok e)
      ↔ ((lookup tool_name registry ≡ some e) × (elem erp_type e.erp_compat ≡ true))
unfolding validate_tool_call
validate_tool_call-ok registry t erp e = elim (Option-cases (lookup t registry)) [
  | inl missing ↦ ground arith
  | inr (e', found) ↦ ground arith
]

-- What one pass over the registry checks holds for the entry that a lookup finds.
every_entry :
    (p : String → ToolRegistryEntry → Bool) (registry : Registry)
    → all (λ r. p (r.0) (r.1)) registry ≡ true
    → (t : String) (e : ToolRegistryEntry) → lookup t registry ≡ some e
    → p t e ≡ true
unfolding lookup
every_entry p [] h t e found = absurd (cc)
every_entry p ((k, e') ∷ r) h t e found = elim (Bool-cases (k == t)) [
  | inl same ↦
      let q : k ≡ t = (eq_iff k t).0 same in
      let q' : e' ≡ e = ground arith in
      subst (λ t'. p t' e ≡ true) q (subst (λ x. p k x ≡ true) q' (ground arith))
  | inr other ↦ every_entry p r (ground arith) t e (ground arith)
]

-- implication of tests
abbrev implies : Bool → Bool → Bool
implies a b = not a || b

abbrev class_policy : String → ToolRegistryEntry → Bool
class_policy t e =
    e.name == t
    && (leb 1 e.risk_class && leb e.risk_class 3)
    && implies (e.risk_class == 1) (not e.is_write && not e.requires_approval)
    && implies (leb 2 e.risk_class) e.is_write
    && implies (e.risk_class == 3) e.requires_approval

policy_checked : all (λ r. class_policy (r.0) (r.1)) tool_registry ≡ true
unfolding tool_registry
policy_checked = refl

-- Every registered tool stands under its own name and has a risk class from 1 to 3. Class 1 neither
-- writes nor needs approval, every other class writes, and class 3 needs approval.
pub registry_classes :
    (t : String) (e : ToolRegistryEntry)
    → lookup t tool_registry ≡ some e
    → (e.name ≡ t)
      × (1 ≤ e.risk_class)
      × (e.risk_class ≤ 3)
      × (e.risk_class ≡ 1 → (e.is_write ≡ false) × (e.requires_approval ≡ false))
      × (2 ≤ e.risk_class → e.is_write ≡ true)
      × (e.risk_class ≡ 3 → e.requires_approval ≡ true)
registry_classes t e found =
    let checked : class_policy t e ≡ true =
      every_entry class_policy tool_registry policy_checked t e found in
    ground (arith, eq_iff e.name t)

abbrev engine_policy : String → ToolRegistryEntry → Bool
engine_policy t e =
    implies (elem t always_allowed) (e.risk_class == 1)
    && implies (elem t always_require_approval) (e.risk_class == 3)
    && implies (e.risk_class == 3) (elem t always_require_approval || t == "upgrade_module_safe")

engine_checked : all (λ r. engine_policy (r.0) (r.1)) tool_registry ≡ true
unfolding tool_registry elem
engine_checked = refl

-- The engine lets through without a question only registered tools of class 1, and always asks only
-- for tools of class 3; it asks for every tool of class 3 but `upgrade_module_safe`.
pub registry_engine :
    (t : String) (e : ToolRegistryEntry)
    → lookup t tool_registry ≡ some e
    → (elem t always_allowed ≡ true → e.risk_class ≡ 1)
      × (elem t always_require_approval ≡ true → e.risk_class ≡ 3)
      × (e.risk_class ≡ 3 → t ≢ "upgrade_module_safe" → elem t always_require_approval ≡ true)
registry_engine t e found =
    let checked : engine_policy t e ≡ true =
      every_entry engine_policy tool_registry engine_checked t e found in
    ground (arith, eq_iff t "upgrade_module_safe")

-- The registry finds an entry's own kind again under the entry's name.
abbrev finds_itself : String → ToolRegistryEntry → Bool
finds_itself k e = elim (lookup e.name tool_registry) [
  | none ↦ false
  | some e' ↦ e'.risk_class == e.risk_class && e'.erp_compat == e.erp_compat
]

finds_checked : all (λ r. finds_itself (r.0) (r.1)) tool_registry ≡ true
unfolding tool_registry lookup
finds_checked = refl

values-all :
    (p : String → ToolRegistryEntry → Bool) (registry : Registry)
    → all (λ r. p (r.0) (r.1)) registry ≡ true
    → (e : ToolRegistryEntry) → In e (values registry)
    → (k : String) × (p k e ≡ true)
unfolding values
values-all p [] h e m = elim m [ ]
values-all p ((k, e') ∷ r) h e (here q) = (k, subst (λ x. p k x ≡ true) (sym q) (ground arith))
values-all p ((k, e') ∷ r) h e (there m) = values-all p r (ground arith) e m

In-names :
    (t : String) (es : List ToolRegistryEntry)
    → In t (map (λ e. e.name) es)
    → (e : ToolRegistryEntry) × In e es × (t ≡ e.name)
In-names t [] m = elim m [ ]
In-names t (e ∷ es) (here q) = (e, here refl, q)
In-names t (e ∷ es) (there m) = let (x, n, q) = In-names t es m in (x, there n, q)

safe_entry :
    (e : ToolRegistryEntry) (erp_type : String)
    → In e (values tool_registry)
    → (e.risk_class ≡ 1)
    → (elem erp_type e.erp_compat ≡ true)
    → (x : ToolRegistryEntry) × (lookup e.name tool_registry ≡ some x)
      × (x.risk_class ≡ 1)
      × (elem erp_type x.erp_compat ≡ true)
safe_entry e erp m one compat =
    let (k, same) = values-all finds_itself tool_registry finds_checked e m in
    elim (Option-cases (lookup e.name tool_registry)) [
      | inl missing ↦ absurd (ground arith)
      | inr (x, found) ↦
          (x, found, ground arith, ground (arith, list_same_iff x.erp_compat e.erp_compat))
    ]

-- Every tool that is offered as safe for an engine passes the validation for that engine, and it
-- does not write and needs no approval.
pub safe_tools-validate :
    (erp_type t : String)
    → In t (safe_tools_for_erp tool_registry erp_type)
    → (e : ToolRegistryEntry) × (validate_tool_call tool_registry t erp_type ≡ ok e)
      × (e.is_write ≡ false)
      × (e.requires_approval ≡ false)
unfolding safe_tools_for_erp
safe_tools-validate erp t m =
    let (e, n, q) = In-names t _ m in
    let (stored, kept) = In-filter_inv (λ x. elem erp x.erp_compat && x.risk_class == 1) e _ n in
    let (x, found, one, compat) = safe_entry e erp stored (ground arith) (ground arith) in
    let found' : lookup t tool_registry ≡ some x = ground arith in
    let facts = (registry_classes t x found').3 one in
    (x, (validate_tool_call-ok tool_registry t erp x).1 (found', compat), facts.0, facts.1)
