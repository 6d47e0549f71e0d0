-- ===== src/Provider/Registered.antt =====
-- What the registration has written.
use rds_dbaas_operator.Prelude.{
  ◌≡◌, refl, ap, ◌⊎◌, inl, inr, Bool, true, false, Option, none, some, List, [], ◌∷◌, arith,
}
use rds_dbaas_operator.K8s.{Error, Result, ok, err, is_not_found, NamespacedName, Reply}
use rds_dbaas_operator.Provider.{
  ClusterRole, DbaasProvider, Environment, Client, provider_labels, owner_of, bridge_provider_cr,
  read_provider_cr_file, bridged, mutate, new_provider, registered, register, owner_labels,
  with_crd, with_deployment, reconcile,
}

-- controllerutil.CreateOrUpdate: if it returns no error, the object that it leaves is one that the
-- callback has returned.
pub record Applies {S Spec : Type 0} (client : Client S Spec) : Type 0 where
  pub create_or_update-applies :
      (p : DbaasProvider Spec) (f : DbaasProvider Spec → S → Result (DbaasProvider Spec) × S)
      (s : S) {q : DbaasProvider Spec} {t : S}
      → client.create_or_update p f s ≡ (ok q, t)
      → (base : DbaasProvider Spec) × (u : S) × ((f base u).0 ≡ ok q)

module _ {S Spec : Type 0} (client : Client S Spec) where
  -- A provider was written behind the list of the cluster roles that own the operator's version:
  -- the first of them owns it, and it has the operator's labels and the spec of the file.
  pub record Registered (env : Environment) (t : S) : Type 0 where
    pub u : S
    pub v : S
    pub w : S
    pub role : ClusterRole
    pub others : List ClusterRole
    pub provider : DbaasProvider Spec
    pub from_file : DbaasProvider Spec
    pub roles : client.list_cluster_roles (owner_labels client env) u ≡ (ok (role ∷ others), v)
    pub written :
        client.create_or_update (new_provider client) (mutate client role) v ≡ (ok provider, t)
    pub read : (read_provider_cr_file client client.file w).0 ≡ ok from_file
    pub owned : provider.owner_references ≡ owner_of role ∷ []
    pub labelled : provider.labels ≡ some provider_labels
    pub specified : provider.spec ≡ from_file.spec

  -- No error, and no new reconciliation.
  abbrev pub IsDone : Reply → Type 0
  IsDone reply = (reply.error ≡ none) × (reply.requeue ≡ false)

  bridged-ok :
      (base : DbaasProvider Spec) (role : ClusterRole) (x : Result (DbaasProvider Spec) × S)
      {q : DbaasProvider Spec}
      → (bridged client base role x).0 ≡ ok q
      → (p : DbaasProvider Spec) × (x.0 ≡ ok p) × (q ≡ bridge_provider_cr base p role)
  unfolding bridged
  bridged-ok base role (err e, s) h = ground arith
  bridged-ok base role (ok p, s) h = (p, refl, ground arith)

  registered-IsDone :
      (x : Result (DbaasProvider Spec) × S) {reply : Reply} {t : S}
      → registered client x ≡ (reply, t)
      → IsDone reply
      → (q : DbaasProvider Spec) × (x ≡ (ok q, t))
  unfolding registered
  registered-IsDone (err e, s) h done = ground arith
  registered-IsDone (ok q, s) h done = (q, ground arith)

  register-Registered :
      (env : Environment) (u : S) (x : Result (List ClusterRole) × S) {reply : Reply} {t : S}
      → Applies client
      → client.list_cluster_roles (owner_labels client env) u ≡ x
      → register client x ≡ (reply, t)
      → IsDone reply
      → Registered env t
  unfolding register mutate bridge_provider_cr
  register-Registered env u (err e, s) laws ex h done = ground arith
  register-Registered env u (ok [], s) laws ex h done = ground arith
  register-Registered env u (ok (role ∷ others), v) laws ex h done =
      let (q, written) = registered-IsDone _ h done in
      let (base, w, e) = laws.create_or_update-applies _ _ v written in
      let (p, read, same) = bridged-ok base role (read_provider_cr_file client client.file w) e in
      record {
        u = u;
        v = v;
        w = w;
        role = role;
        others = others;
        provider = q;
        from_file = p;
        roles = ex;
        written = written;
        read = read;
        owned = ap (λ q. q.owner_references) same;
        labelled = ap (λ q. q.labels) same;
        specified = ap (λ q. q.spec) same;
      }

  crd-Registered :
      (env : Environment) (x : Result Bool × S) {reply : Reply} {t : S}
      → Applies client
      → with_crd client env x ≡ (reply, t)
      → IsDone reply
      → Registered env t
  unfolding with_crd
  crd-Registered env (err e, s) laws h done = ground arith
  crd-Registered env (ok false, s) laws h done = ground arith
  crd-Registered env (ok true, s) laws h done = register-Registered env s _ laws refl h done

  deployment-Registered :
      (env : Environment) (x : Option Error × S) {reply : Reply} {t : S}
      → Applies client
      → with_deployment client env x ≡ (reply, t)
      → IsDone reply
      → ((e : Error) × (x ≡ (some e, t)) × (is_not_found e ≡ true))
        ⊎ ((x.0 ≡ none) × Registered env t)
  unfolding with_deployment
  deployment-Registered env (some e, s) laws h done = inl (e, ground arith, ground arith)
  deployment-Registered env (none, s) laws h done = inr (refl, crd-Registered env _ laws h done)

  -- Where CreateOrUpdate leaves an object of its callback, a reconciliation that replies no error
  -- and asks for no new one has either not found the deployment, or written the provider: the
  -- first of the cluster roles that own the operator's version owns it, and it has the operator's
  -- labels and the spec of the file.
  pub reconcile-Registered :
      (env : Environment) (request : NamespacedName) (s : S) {reply : Reply} {t : S}
      → Applies client
      → reconcile client env request s ≡ (reply, t)
      → IsDone reply
      → ((e : Error) × (client.get_deployment request s ≡ (some e, t)) × (is_not_found e ≡ true))
        ⊎ (((client.get_deployment request s).0 ≡ none) × Registered env t)
  unfolding reconcile
  reconcile-Registered env request s laws h done = deployment-Registered env _ laws h done
