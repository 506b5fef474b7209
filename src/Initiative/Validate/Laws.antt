-- ===== src/Initiative/Validate/Laws.antt =====
-- Lemmas on the loops of DevelopmentInitiative.Validate of internal/domain/initiative.go.
use comis_dev_crew.Base.{
  ◌≡◌, ◌≢◌, ap, ◌↔◌, ◌⊎◌, inl, inr, true, false, not, ◌&&◌, ◌||◌, List, [], ◌∷◌, arith, ok, Result,
  >>-eq-ok, >>=-eq-ok, refuse-eq-ok, All, In, In-cons, In-cons_eq, In-append, In-append_left,
  In-append_right, refuse, is_empty, length, ltb, err,
}
use comis_dev_crew.Text.{Text, member}
use comis_dev_crew.Text.Distinct.{IsDistinct, IsFresh, nil-IsFresh, cons-IsFresh, append-IsFresh}
use comis_dev_crew.Text.Laws.{text_eq_iff, member-In}
use comis_dev_crew.Field.{ValidationError, validate_task_handle}
use comis_dev_crew.Initiative.{
  InitiativeEdge, InitiativeComponent, DevelopmentInitiative, task_handles_of, valid_edge_kind,
}
use comis_dev_crew.Initiative.Cycle.{has_cycle}
use comis_dev_crew.Initiative.Cycle.Search.{Cycle}
use comis_dev_crew.Initiative.Cycle.Correct.{Covers, has_cycle_iff}
use comis_dev_crew.Initiative.Validate.{
  validate_initiative, validate_initiative_fields, validate_base_revisions, validate_components,
  validate_edges, validate_contract_artifacts, check_edge, edges_loop, members_loop,
  components_loop, check_component,
}

value_or : {A : Type 0} → A → Result ValidationError A → A
value_or d (ok a) = a
value_or d (err e) = d

ok_eq : {a b : List Text} → ◌≡◌ {A = Result ValidationError (List Text)} (ok a) (ok b) → a ≡ b
unfolding value_or
ok_eq {a} h = ap (value_or a) h

-- What a loop that adds to the members does with them.
record Adds (members handles result : List Text) : Type 0 where
  adds : (t : Text) → In t result ↔ (In t members ⊎ In t handles)
  fresh : IsFresh members handles

members_loop-Adds :
    (members handles result : List Text)
    → members_loop members handles ≡ ok result
    → Adds members handles result
unfolding members_loop
members_loop-Adds members [] result h = record {
  adds = λ t. rw (← ok_eq h) (λ m. inl m, λ s. elim s [ inl m ↦ m | inr m ↦ elim m [ ] ]);
  fresh = nil-IsFresh members;
}
members_loop-Adds members (x ∷ handles) result h =
    let (formed, h1) = >>-eq-ok (validate_task_handle x) _ h in
    let (new, h2) = >>-eq-ok (refuse (member x members) _) _ h1 in
    let rest = members_loop-Adds (x ∷ members) handles result h2 in
    record {
      adds = λ t. (
        λ m. elim ((rest.adds t).0 m) [
          | inl k ↦ elim (In-cons k) [ inl e ↦ inr (In-cons_eq e) | inr old ↦ inl old ]
          | inr k ↦ inr (In.there k)
        ],
        λ s. (rest.adds t).1 (elim s [
          | inl old ↦ inl (In.there old)
          | inr k ↦ elim (In-cons k) [ inl e ↦ inl (In-cons_eq e) | inr later ↦ inr later ]
        ]),
      );
      fresh = cons-IsFresh x members handles (refuse-eq-ok (member x members) _ new) rest.fresh;
    }

components_loop-Adds :
    (bases handles members : List Text) (components : List InitiativeComponent) (result : List Text)
    → components_loop bases handles members components ≡ ok result
    → Adds members (task_handles_of components) result
unfolding components_loop task_handles_of
components_loop-Adds bases handles members [] result h = record {
  adds = λ t. rw (← ok_eq h) (λ m. inl m, λ s. elim s [ inl m ↦ m | inr m ↦ elim m [ ] ]);
  fresh = nil-IsFresh members;
}
components_loop-Adds bases handles members (c ∷ cs) result h =
    let (good, h1) = >>-eq-ok (check_component bases handles c) _ h in
    let (members', h2, h3) = >>=-eq-ok (members_loop members c.task_handles) _ h1 in
    let first = members_loop-Adds members c.task_handles members' h2 in
    let rest = components_loop-Adds bases (c.component_handle ∷ handles) members' cs result h3 in
    record {
      adds = λ t. (
        λ m. elim ((rest.adds t).0 m) [
          | inl k ↦ elim ((first.adds t).0 k) [
            | inl old ↦ inl old
            | inr here' ↦ inr (In-append_left c.task_handles (task_handles_of cs) here')
          ]
          | inr k ↦ inr (In-append_right c.task_handles (task_handles_of cs) k)
        ],
        λ s. (rest.adds t).1 (elim s [
          | inl old ↦ inl ((first.adds t).1 (inl old))
          | inr k ↦ elim (In-append c.task_handles (task_handles_of cs) k) [
            | inl here' ↦ inl ((first.adds t).1 (inr here'))
            | inr later ↦ inr later
          ]
        ]),
      );
      fresh =
          append-IsFresh members members' c.task_handles (task_handles_of cs) first.fresh first.adds
            rest.fresh;
    }

-- The facts that validateEdges establishes of one edge.
pub record IsDependency (members : List Text) (edge : InitiativeEdge) : Type 0 where
  pub kind : valid_edge_kind edge.kind ≡ true
  pub from_member : In edge.from_task_handle members
  pub to_member : In edge.to_task_handle members
  pub not_self : edge.from_task_handle ≢ edge.to_task_handle

check_edge-IsDependency :
    (members : List Text) (seen : List InitiativeEdge) (edge : InitiativeEdge)
    → check_edge members seen edge ≡ ok tt
    → IsDependency members edge
unfolding check_edge
check_edge-IsDependency members seen edge h = record {
  kind = ground arith;
  from_member = member-In edge.from_task_handle members (ground arith);
  to_member = member-In edge.to_task_handle members (ground arith);
  not_self = λ e. ground (arith, text_eq_iff edge.from_task_handle edge.to_task_handle);
}

edges_loop-All :
    (members : List Text) (seen edges : List InitiativeEdge)
    → edges_loop members seen edges ≡ ok tt
    → All (IsDependency members) edges
unfolding edges_loop
edges_loop-All members seen [] h = tt
edges_loop-All members seen (e ∷ es) h =
    let (good, rest) = >>-eq-ok (check_edge members seen e) _ h in
    (check_edge-IsDependency members seen e good, edges_loop-All members (e ∷ seen) es rest)

edges_checked :
    (initiative : DevelopmentInitiative) (members : List Text)
    → validate_edges initiative members ≡ ok tt
    → (edges_loop members [] initiative.edges ≡ ok tt)
      × (has_cycle initiative.edges members ≡ false)
unfolding validate_edges
edges_checked initiative members h = ground arith

IsDependency-transfer :
    (members handles : List Text) (edges : List InitiativeEdge)
    → ((t : Text) → In t members → In t handles)
    → All (IsDependency members) edges
    → All (IsDependency handles) edges
IsDependency-transfer members handles [] sub h = tt
IsDependency-transfer members handles (e ∷ es) sub h = (
  record {
    kind = h.0.kind;
    from_member = sub e.from_task_handle h.0.from_member;
    to_member = sub e.to_task_handle h.0.to_member;
    not_self = h.0.not_self;
  },
  IsDependency-transfer members handles es sub h.1,
)

dependency-Covers :
    (members : List Text) (edges : List InitiativeEdge)
    → All (IsDependency members) edges
    → Covers members edges
dependency-Covers members [] h = tt
dependency-Covers members (e ∷ es) h =
    ((h.0.from_member, h.0.to_member), dependency-Covers members es h.1)

-- What the record of a valid initiative says of its graph.
pub record IsSoundGraph (initiative : DevelopmentInitiative) : Type 0 where
  pub one_component : IsDistinct (task_handles_of initiative.components)
  pub dependencies : All (IsDependency (task_handles_of initiative.components)) initiative.edges
  pub acyclic : ¬ Cycle initiative.edges
  pub owner :
      is_empty initiative.integration_owner_task ≡ false
      → In initiative.integration_owner_task (task_handles_of initiative.components)

components_checked :
    (initiative : DevelopmentInitiative) (bases members : List Text)
    → validate_components initiative bases ≡ ok members
    → components_loop bases [] [] initiative.components ≡ ok members
unfolding validate_components
components_checked initiative bases members h =
    (>>-eq-ok (refuse (is_empty initiative.components || ltb 64 (length initiative.components)) _) _
      h).1

-- In a valid initiative every task belongs to one component, every dependency joins two different
-- tasks of the initiative, no dependencies form a cycle, and a recorded integration owner is one
-- of the tasks.
pub valid_initiative-IsSoundGraph :
    (initiative : DevelopmentInitiative)
    → validate_initiative initiative ≡ ok tt
    → IsSoundGraph initiative
unfolding validate_initiative
valid_initiative-IsSoundGraph initiative h =
    let (fields, h1) = >>-eq-ok (validate_initiative_fields initiative) _ h in
    let (bases, _, h2) = >>=-eq-ok (validate_base_revisions initiative) _ h1 in
    let (members, listed, h3) = >>=-eq-ok (validate_components initiative bases) _ h2 in
    let (graph, h4) = >>-eq-ok (validate_edges initiative members) _ h3 in
    let (artifacts, owned) = >>-eq-ok (validate_contract_artifacts initiative) _ h4 in
    let all_members =
      components_loop-Adds bases [] [] initiative.components members
        (components_checked initiative bases members listed) in
    let inside = λ (t : Text) (m : In t members).
      let found : In t (task_handles_of initiative.components) = elim ((all_members.adds t).0 m) [
        | inl k ↦ elim k [ ]
        | inr k ↦ k
      ] in
      found in
    let (looped, no_cycle) = edges_checked initiative members graph in
    let deps = edges_loop-All members [] initiative.edges looped in
    record {
      one_component = all_members.fresh.distinct;
      dependencies =
          IsDependency-transfer members (task_handles_of initiative.components) initiative.edges
            inside deps;
      acyclic = λ y. cc (
          (has_cycle_iff initiative.edges members
              (dependency-Covers members initiative.edges deps)).1
            y);
      owner = λ e. inside initiative.integration_owner_task (
          member-In initiative.integration_owner_task members (
            ground (
              arith,
              refuse-eq-ok
                  (not (is_empty initiative.integration_owner_task)
                    && not (member initiative.integration_owner_task members))
                  _ owned,
            )));
    }
