-- ===== src/Pool/Refresh.antt =====
-- src/core/src/connection_pool.cpp: what refresh_connection returns.
use irods_client_library_cpp.Base.{
  ℕ, ◌≡◌, ◌⊎◌, refl, sym, ap, ◌∙◌, true, false, Option, none, some, arith, if◌then◌else◌,
  Bool-cases, Option-cases, inl, inr, Result, ok, err,
}
use irods_client_library_cpp.Base.Int.{ℤ}
use irods_client_library_cpp.Pool.{
  ConnectionContext, Answers, Failure, connect_error, client_login_error, create_connection,
  verify_connection, refresh_connection,
}

verified :
    (r : ℤ) (ctx : ConnectionContext) (a : Answers)
    → verify_connection r ctx a ≡ true
    → (c : ℕ) × (ctx.conn ≡ some c)
unfolding verify_connection
verified r ctx a h = elim (Option-cases ctx.conn) [
  | inl e ↦ absurd (ground (arith, e, h))
  | inr (c, e) ↦ (c, e)
]

ok_same : {a b : Option ℕ} → ◌≡◌ {A = Result Failure (Option ℕ)} (ok a) (ok b) → a ≡ b
ok_same h = cc

refresh_kept :
    (r : ℤ) (ctx : ConnectionContext) (a : Answers)
    → verify_connection r ctx a ≡ true
    → refresh_connection r ctx a ≡ (ctx, ok ctx.conn)
unfolding refresh_connection
refresh_kept r ctx a e = rw (e, refresh_connection) refl

-- The context with the new connection.
abbrev renewed : ConnectionContext → Answers → ConnectionContext
renewed ctx a = record ctx { creation_time = a.created_at; conn = a.connected }

-- What a failed verification leads to.
abbrev made_anew : ConnectionContext → Answers → ConnectionContext × Result Failure (Option ℕ)
made_anew ctx a = (
  renewed ctx a,
  elim a.connected [
    | none ↦ err connect_error
    | some c ↦ if a.login_ok then ok (some c) else err client_login_error
  ],
)

refresh_made :
    (r : ℤ) (ctx : ConnectionContext) (a : Answers)
    → verify_connection r ctx a ≡ false
    → refresh_connection r ctx a ≡ made_anew ctx a
unfolding refresh_connection create_connection
refresh_made r ctx a e = elim (Option-cases a.connected) [
  | inl f ↦ rw (e, f, refresh_connection, made_anew) refl
  | inr (c, f) ↦ elim (Bool-cases a.login_ok) [
    | inl g ↦ ground (arith, e, f, g)
    | inr g ↦ ground (arith, e, f, g)
  ]
]

made_connection :
    (ctx : ConnectionContext) (a : Answers) (o : Option ℕ)
    → (made_anew ctx a).1 ≡ ok o
    → (c : ℕ) × (o ≡ some c) × (a.connected ≡ some c)
made_connection ctx a o h = elim (Option-cases a.connected) [
  | inl f ↦ absurd (ground (arith, f, h))
  | inr (c, f) ↦ (c, ground (arith, f, h), f)
]

-- get_connection never makes a proxy of a null pointer: where refresh_connection returns, it returns
-- the connection that the context then has, and the context has one, which was verified or is the
-- answer of rcConnect.
pub refresh_connection_lem :
    (r : ℤ) (ctx : ConnectionContext) (a : Answers) (o : Option ℕ)
    → (refresh_connection r ctx a).1 ≡ ok o
    → (c : ℕ) × (o ≡ some c)
      × ((refresh_connection r ctx a).0.conn ≡ some c)
      × ((verify_connection r ctx a ≡ true) ⊎ (a.connected ≡ some c))
refresh_connection_lem r ctx a o h = elim (Bool-cases (verify_connection r ctx a)) [
  | inl e ↦
      let (c, has) = verified r ctx a e in
      let kept = refresh_kept r ctx a e in
      (c, ok_same (sym h ∙ ap (λ q. q.1) kept) ∙ has, ap (λ q. q.0.conn) kept ∙ has, inl e)
  | inr e ↦
      let made = refresh_made r ctx a e in
      let (c, got, connected) = made_connection ctx a o (sym (ap (λ q. q.1) made) ∙ h) in
      (c, got, ap (λ q. q.0.conn) made ∙ connected, inr connected)
]
