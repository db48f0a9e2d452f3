-- ===== src/Executors/Guard.antt =====
-- The checks that stand before a tool in app/tools/executors/native_executor.py.
use cloud_agent_platform_dem.Prelude.{
  String, true, ◌≡◌, refl, ap, sym, ◌∙◌, ◌⊎◌, inl, inr, Option, none, some, Bool-cases,
}
use cloud_agent_platform_dem.Prelude.Exec.{after-split, Error, Result, ok, err, Result-cases}
use cloud_agent_platform_dem.Text.{Unicode}
use cloud_agent_platform_dem.Tools.{
  ToolRequest, ToolContext, ToolResult, PolicyDecision, schema_or_default,
}
use cloud_agent_platform_dem.Registry.{NativeTool, ToolRegistry, get_tool}
use cloud_agent_platform_dem.Validator.{validate_request}
use cloud_agent_platform_dem.Validator.Conformance.{Conforms, validate_request-Conforms}
use cloud_agent_platform_dem.Policy.{Paths, try_evaluate}
use cloud_agent_platform_dem.Policy.Decision.{try_evaluate-evaluate}
use cloud_agent_platform_dem.Policy.Permission.{IsPermitted, evaluate-allowed_iff}
use cloud_agent_platform_dem.Executors.{
  failed, caught_text, catch, reject, validation, execute_permitted, execute,
}

-- A tool of the registry that the request may run: it goes by the name of the request, the arguments
-- conform to its schema and pass its own check, and the policy permits the request.
pub record IsCleared {E : Type 0} (u : Unicode) (paths : Paths) (registry : ToolRegistry E)
    (request : ToolRequest) (c : ToolContext) (t : NativeTool E) : Type 0 where
  pub registered : get_tool request.tool_name registry ≡ ok t
  pub named : request.tool_name ≡ t.definition.name
  pub conforms : Conforms request.arguments (schema_or_default t.definition.parameters_schema)
  pub accepted : t.validate request.arguments ≡ ok tt
  pub permitted : IsPermitted u paths request t.definition c

rejected :
    {E : Type 0} (request : ToolRequest) (x : Error) (text : Option String) (e : E)
    → (reject request x text e).1 ≡ e
rejected request x none e = refl
rejected request x (some text) e = refl

cleared :
    {E : Type 0} (u : Unicode) (paths : Paths) (registry : ToolRegistry E) (request : ToolRequest)
    (c : ToolContext) (t : NativeTool E)
    → get_tool request.tool_name registry ≡ ok t
    → validation u t request ≡ ok tt
    → (d : PolicyDecision) → try_evaluate u paths request t.definition c ≡ ok d
    → d.allowed ≡ true
    → IsCleared u paths registry request c t
unfolding validation
cleared u paths registry request c t found passed d decision allowed =
    let (valid, accepted) =
      after-split (t.validate request.arguments) (validate_request u request t.definition) passed in
    let (named, conforms) = validate_request-Conforms u request t.definition valid in
    record {
      registered = found;
      named = named;
      conforms = conforms;
      accepted = accepted;
      permitted = (evaluate-allowed_iff u paths request t.definition c).0 (
          ap (λ x. x.allowed)
            (sym (try_evaluate-evaluate u paths c request t.definition d decision))
          ∙ allowed);
    }

module _ {E : Type 0} (u : Unicode) (paths : Paths) (shown : Error → String)
    (registry : ToolRegistry E) where
  -- A request leaves the world as it is, or it has a tool that is cleared to run: it is registered
  -- under the name of the request, the arguments conform to its schema and pass its own check, and
  -- the policy permits it (writing, role and every path argument). Then the result is that of the
  -- tool, and an exception of the tool is a failed result.
  pub execute_guarded :
      (request : ToolRequest) (c : ToolContext) (e : E)
      → ((execute u paths shown registry request c e).1 ≡ e)
        ⊎ ((t : NativeTool E) × IsCleared u paths registry request c t
            × (execute u paths shown registry request c e
                ≡ catch (λ x. failed request (shown x)) (t.execute request c e)))
  unfolding execute
  execute_guarded request c e = elim (Result-cases (get_tool request.tool_name registry)) [
    | inr (x, missing) ↦ rw missing (inl refl)
    | inl (t, found) ↦ rw found (elim (Result-cases (validation u t request)) [
      | inr (x, raised) ↦ rw raised (inl (rejected request x (caught_text x) e))
      | inl (x, passed) ↦ rw passed (
          unfold execute_permitted in
          elim (Result-cases (try_evaluate u paths request t.definition c)) [
            | inr (y, unresolved) ↦ rw unresolved (inl refl)
            | inl (d, decision) ↦ rw decision (elim (Bool-cases d.allowed) [
              | inr refused ↦ rw refused (inl refl)
              | inl allowed ↦ rw allowed (
                  inr
                    (t, cleared u paths registry request c t found passed d decision allowed, refl))
            ])
          ])
    ])
  ]

  -- When the validation of the named tool raises nothing but what the executor catches, and the policy
  -- raises nothing for it (no path that it resolves does), a request always gets a result, whatever
  -- the tool does.
  pub execute_returns :
      (request : ToolRequest) (c : ToolContext) (e : E)
      → ((t : NativeTool E) (x : Error)
          → get_tool request.tool_name registry ≡ ok t
          → validation u t request ≡ err x
          → (text : String) × (caught_text x ≡ some text))
      → ((t : NativeTool E)
          → get_tool request.tool_name registry ≡ ok t
          → (d : PolicyDecision) × (try_evaluate u paths request t.definition c ≡ ok d))
      → (r : ToolResult) × (e' : E) × (execute u paths shown registry request c e ≡ (ok r, e'))
  unfolding execute
  execute_returns request c e caught decides =
      elim (Result-cases (get_tool request.tool_name registry)) [
        | inr (x, missing) ↦ rw missing (_, _, refl)
        | inl (t, found) ↦ rw found (elim (Result-cases (validation u t request)) [
          | inr (x, raised) ↦
              let (text, known) = caught t x found raised in rw raised (rw known (_, _, refl))
          | inl (x, passed) ↦ rw passed (
              unfold execute_permitted in
              let (d, decision) = decides t found in
              rw decision (elim (Bool-cases d.allowed) [
                | inr refused ↦ rw refused (_, _, refl)
                | inl allowed ↦ rw allowed (caught_run (t.execute request c e))
              ]))
        ])
      ]
    where
      caught_run :
          (r : Result ToolResult × E)
          → (q : ToolResult) × (e' : E) × (catch (λ x. failed request (shown x)) r ≡ (ok q, e'))
      caught_run (ok q, e') = (q, e', refl)
      caught_run (err x, e') = (failed request (shown x), e', refl)
