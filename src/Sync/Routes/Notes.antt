-- ===== src/Sync/Routes/Notes.antt =====
-- What one round of the loops of Sync/Routes.antt does with the seen values and the routes.
use mathlib.Core.List.Memᴰ
use mathlib.Core.List.{Memᴰ}
use sql_gatekeeper.Prelude.{
  String, refl, sym, ◌≡◌, true, none, some, ◌==◌, ◌⊎◌, inl, inr, Exception, ok, raise, value_error,
  Option-cases, if-eq-cases, eq_iff, and_true, ok-eq, arith,
}
use sql_gatekeeper.Prelude.Text.Number.{ℤ}
use sql_gatekeeper.Prelude.Int.{show_ℤ}
use sql_gatekeeper.Prelude.Dict.{Dict, get, put, get-put}
use sql_gatekeeper.Sync.Library.{Library}
use sql_gatekeeper.Sync.Records.{TableConfigRow, RouteRecord}
use sql_gatekeeper.Sync.Routes.{
  RouteState, same_target, target, noted, route_record, single_step, shard_step, shard_name,
}

abbrev pub target_of : RouteRecord → String × String
target_of r = (r.physical_table_name, r.datasource_code)

-- The seen values are those of the routes, with their targets.
pub record Agrees (s : RouteState) : Type 0 where
  pub is_seen : (r : RouteRecord) → Memᴰ r s.routes → get r.route_value s.seen ≡ some (target_of r)
  pub is_routed :
      (v : String) (t : String × String)
      → get v s.seen ≡ some t
      → (r : RouteRecord) × Memᴰ r s.routes × (r.route_value ≡ v) × (target_of r ≡ t)

same_target-eq : (s t : String × String) → same_target s t ≡ true → s ≡ t
same_target-eq (a, b) (c, d) e =
    let (p, q) = and_true (a == c) (b == d) e in
    let p' : a ≡ c = ground (arith, eq_iff a c) in let q' : b ≡ d = ground (arith, eq_iff b d) in cc

get-put-same : {A : Type 0} (k : String) (a : A) (d : Dict A) → get k (put k a d) ≡ some a
get-put-same k a d = ground (arith, get-put k k a d, eq_iff k k)

-- A key keeps its value where the key that is set has none, or the value that is set.
get-put-keeps :
    {A : Type 0} (k j : String) (a b : A) (d : Dict A)
    → (get k d ≡ none) ⊎ (get k d ≡ some a)
    → get j d ≡ some b
    → get j (put k a d) ≡ some b
get-put-keeps k j a b d old e =
    elim (if-eq-cases (k == j) (some a) (get j d) (sym (get-put k j a d))) [
      | inl (same, e') ↦
          let k≡j : k ≡ j = ground (arith, eq_iff k j) in
          elim old [ inl o ↦ absurd (cc) | inr o ↦ cc ]
      | inr (_, e') ↦ cc
    ]

module _ (lib : Library) (name : String) (row : TableConfigRow) (value physical_name : String) where
  -- The round adds a route for `value`, where it is new or has the same target, or skips it.
  abbrev pub Notes : RouteState → RouteState → Type 0
  Notes s s' =
      ((get value s.seen ≡ none) ⊎ (get value s.seen ≡ some (target lib name row physical_name)))
        × (s' ≡ noted lib name row value physical_name s)
      ⊎ (get value s.seen ≡ some (target lib name row physical_name)) × (s' ≡ s)

  pub Notes-seen :
      {s s' : RouteState}
      → Notes s s'
      → get value s'.seen ≡ some (target lib name row physical_name)
  Notes-seen {s} (inl (old, e)) =
      rw e (get-put-same value (target lib name row physical_name) s.seen)
  Notes-seen (inr (old, e)) = rw e old

  pub Notes-keeps :
      {s s' : RouteState} (v : String) (t : String × String)
      → Notes s s'
      → get v s.seen ≡ some t
      → get v s'.seen ≡ some t
  Notes-keeps {s} v t (inl (old, e)) h =
      rw e (get-put-keeps value v (target lib name row physical_name) t s.seen old h)
  Notes-keeps v t (inr (old, e)) h = rw e h

  noted-Agrees :
      (s : RouteState)
      → (get value s.seen ≡ none) ⊎ (get value s.seen ≡ some (target lib name row physical_name))
      → Agrees s
      → Agrees (noted lib name row value physical_name s)
  noted-Agrees s old a = record {
    is_seen = λ r m. elim (Memᴰ.append_cases s.routes m) [
      | inl before ↦
          get-put-keeps value r.route_value (target lib name row physical_name) (target_of r) s.seen
            old (a.is_seen r before)
      | inr last ↦ elim (Memᴰ.cases_cons last) [
        | inl same ↦ rw same (get-put-same value (target lib name row physical_name) s.seen)
        | inr later ↦ elim later [ ]
      ]
    ];
    is_routed = λ v t h.
        elim (if-eq-cases (value == v) (some (target lib name row physical_name)) (get v s.seen)
          (sym (get-put value v (target lib name row physical_name) s.seen))) [
            | inl (same, e) ↦ (
              route_record lib name row value physical_name,
              Memᴰ.append_right s.routes (Memᴰ.head refl),
              ground (arith, eq_iff value v),
              cc,
            )
            | inr (_, e) ↦
                let (r, m, p, q) = a.is_routed v t (cc) in (r, Memᴰ.append_left _ m, p, q)
          ];
  }

  -- The routes after the round are those before it and the row's.
  pub Notes-Memᴰ :
      {s s' : RouteState} {r : RouteRecord}
      → Notes s s'
      → Memᴰ r s'.routes
      → Memᴰ r s.routes ⊎ (r ≡ route_record lib name row value physical_name)
  Notes-Memᴰ {s} (inl (_, e)) m = elim (Memᴰ.append_cases s.routes (rw e at m)) [
    | inl before ↦ inl before
    | inr last ↦ elim (Memᴰ.cases_cons last) [ inl same ↦ inr same | inr later ↦ elim later [ ] ]
  ]
  Notes-Memᴰ (inr (_, e)) m = inl (rw e at m)

  pub Notes-Agrees : {s s' : RouteState} → Notes s s' → Agrees s → Agrees s'
  Notes-Agrees {s} (inl (old, e)) a = rw e (noted-Agrees s old a)
  Notes-Agrees (inr (_, e)) a = rw e a

pub single_step-Notes :
    (lib : Library) (name value : String) (s : RouteState) (row : TableConfigRow) (s' : RouteState)
    → single_step lib name value s row ≡ ok s'
    → Notes lib name row value row.table_name s s'
unfolding single_step
single_step-Notes lib name value s row s' e = elim (Option-cases (get value s.seen)) [
  | inl new ↦ inl (inl new, sym (ok-eq (rw (new, single_step) at e)))
  | inr (t, old) ↦
      elim (if-eq-cases (same_target t (target lib name row row.table_name))
        (ok (noted lib name row value row.table_name s)) (raise value_error)
        (rw (old, single_step) at e)) [
          | inl (same, e') ↦ inl (
            inr (cc (old, same_target-eq t (target lib name row row.table_name) same)),
            sym (ok-eq e'),
          )
          | inr (_, e') ↦ absurd (cc)
        ]
]

pub shard_step-Notes :
    (lib : Library) (name : String) (row : TableConfigRow) (s : RouteState) (i : ℤ)
    (s' : RouteState)
    → shard_step lib name row s i ≡ ok s'
    → Notes lib name row (show_ℤ i) (shard_name lib name row i) s s'
unfolding shard_step
shard_step-Notes lib name row s i s' e = elim (Option-cases (get (show_ℤ i) s.seen)) [
  | inl new ↦ inl (inl new, sym (ok-eq (rw (new, shard_step) at e)))
  | inr (t, old) ↦
      elim (if-eq-cases (same_target t (target lib name row (shard_name lib name row i))) (ok s)
        (raise value_error) (rw (old, shard_step) at e)) [
          | inl (same, e') ↦ inr (
            cc (old, same_target-eq t (target lib name row (shard_name lib name row i)) same),
            sym (ok-eq e'),
          )
          | inr (_, e') ↦ absurd (cc)
        ]
]

-- A value error is the only exception.
pub single_step-raises :
    (lib : Library) (name value : String) (s : RouteState) (row : TableConfigRow) (x : Exception)
    → single_step lib name value s row ≡ raise x
    → x ≡ value_error
unfolding single_step
single_step-raises lib name value s row x e = elim (Option-cases (get value s.seen)) [
  | inl new ↦ absurd (cc (rw (new, single_step) at e))
  | inr (t, old) ↦
      elim (if-eq-cases (same_target t (target lib name row row.table_name))
        (ok (noted lib name row value row.table_name s)) (raise value_error)
        (rw (old, single_step) at e)) [ inl (_, e') ↦ absurd (cc) | inr (_, e') ↦ cc ]
]

pub shard_step-raises :
    (lib : Library) (name : String) (row : TableConfigRow) (s : RouteState) (i : ℤ) (x : Exception)
    → shard_step lib name row s i ≡ raise x
    → x ≡ value_error
unfolding shard_step
shard_step-raises lib name row s i x e = elim (Option-cases (get (show_ℤ i) s.seen)) [
  | inl new ↦ absurd (cc (rw (new, shard_step) at e))
  | inr (t, old) ↦
      elim (if-eq-cases (same_target t (target lib name row (shard_name lib name row i))) (ok s)
        (raise value_error) (rw (old, shard_step) at e)) [
          | inl (_, e') ↦ absurd (cc)
          | inr (_, e') ↦ cc
        ]
]
