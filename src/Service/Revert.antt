-- ===== src/Service/Revert.antt =====
-- The revert functions of `CreateDomain` of internal/services/domain/create.go.
use tunnel_manager.Prelude.{
  ◌≡◌, refl, sym, ap, ◌∙◌, ◌⊎◌, inl, inr, Bool, false, List, [], ◌∷◌, none, Result, ok, err, Error,
  Bool-cases,
}
use tunnel_manager.Prelude.Text.{Bytes, codes, text_eq, text_eq_iff}
use tunnel_manager.Model.{Domain, DomainRoute, TunnelInfo}
use tunnel_manager.Repo
use tunnel_manager.Repo.{Db}
use tunnel_manager.Repo.Laws.{IsAtomic, create-IsAtomic}
use tunnel_manager.Proxy.{ProxyServer, remove_domain}
use tunnel_manager.Proxy.Table.{lookup, lookup-without, commit_domain-Installs}
use tunnel_manager.Service.World.{
  Entry, tunnel_deleted, written, Outside, World, Run, next, try_of, wrap_err, ask, perform,
  write_db,
}
use tunnel_manager.Service.Operations.{publish, put_ingress, create_row, spawn}
use tunnel_manager.Service.Creation.{
  Draft, domain_of, reverted, or_revert, spawned_or_error, persist, ingress_failed, undo_record,
  undo_proxy, undo_tunnel, with_proxy_entry, with_tunnel, build,
}

-- A run that succeeds, or fails in a world with `P`.
unfoldable pub Fails : {A : Type 0} → (World → Type 0) → World × Result A → Type 0
Fails P (w, ok a) = Unit
Fails P (w, err e) = P w

module _ (P : World → Type 0) where
  next-Fails :
      {A B : Type 0} (f : A → Run B) (r : World × Result A)
      → Fails P r
      → ((a : A) (w : World) → r ≡ (w, ok a) → Fails P (f a w))
      → Fails P (next f r)
  unfolding Fails next
  next-Fails f (w, ok a) h k = k a w refl
  next-Fails f (w, err e) h k = h

  naming-Fails :
      {A : Type 0} (m : Bytes) (r : World × Result A) → Fails P r → Fails P (r.0, wrap_err m r.1)
  unfolding Fails next
  naming-Fails m (w, ok a) h = tt
  naming-Fails m (w, err e) h = h

  ingress_failed-Fails : (r : World × Result (Unit {0})) → Fails P r → Fails P (ingress_failed r)
  unfolding Fails next
  ingress_failed-Fails (w, ok a) h = tt
  ingress_failed-Fails (w, err e) h = h

  -- The undoing, which takes a failure with `Q` to one with `P`.
  reverted-Fails :
      {A : Type 0} (Q : World → Type 0) (undo : Run (Unit {0})) (r : World × Result A)
      → Fails Q r
      → ((w : World) → Q w → P (undo w).0)
      → Fails P (reverted undo r)
  unfolding Fails next
  reverted-Fails Q undo (w, ok a) h k = tt
  reverted-Fails Q undo (w, err e) h k = k w h

  any-Fails : {A : Type 0} (r : World × Result A) → P r.0 → Fails P r
  unfolding Fails next
  any-Fails (w, ok a) h = tt
  any-Fails (w, err e) h = h

  spawned-Fails :
      (o : Outside) (d : Domain) (r : World × Result (Unit {0}))
      → Fails P (next (λ s. spawned_or_error o d s) (try_of r))
  unfolding Fails next
  spawned-Fails o d (w, ok a) = tt
  spawned-Fails o d (w, err e) = tt

-- What only calls to the outside leave as it is.
module _ (R : Db → ProxyServer → Type 0) where
  abbrev Kept : World → Type 0
  Kept w = R w.db w.proxy

  next-Kept :
      {A B : Type 0} (f : A → Run B) (r : World × Result A)
      → Kept r.0
      → ((a : A) (w : World) → Kept w → Fails Kept (f a w))
      → Fails Kept (next f r)
  unfolding Fails next
  next-Kept f (w, ok a) h k = k a w h
  next-Kept f (w, err e) h k = h

  write_db-Fails :
      (f : Db → Db × Result (Unit {0})) (w : World)
      → IsAtomic w.db (f w.db)
      → Kept w
      → Fails Kept (write_db f w)
  unfolding Fails next
  write_db-Fails f w (inl done) h = rw done tt
  write_db-Fails f w (inr (e, failed)) h = rw failed h

  create_row-Fails : (o : Outside) (d : Domain) (w : World) → Kept w → Fails Kept (create_row o d w)
  unfolding create_row perform ask publish Fails
  create_row-Fails o d w h =
      next-Fails Kept (λ _. publish)
        (next (λ _. write_db (λ db. Repo.create db d)) (perform o written w))
        (next-Kept (λ _. write_db (λ db. Repo.create db d)) (perform o written w) h
          (λ _ w' h'. write_db-Fails (λ db. Repo.create db d) w' (create-IsAtomic w'.db d) h'))
        (λ _ _ _. tt)

  persist-Fails :
      (o : Outside) (d : Draft) (t : TunnelInfo) (record_id : Bytes) (w : World)
      → Kept w
      → Fails Kept (persist o d t record_id w)
  unfolding persist perform ask
  persist-Fails o d t record_id w h = next-Kept _ _ h (λ token w₁ h₁. next-Kept _ _ h₁ (λ _ w₂ h₂.
      next-Kept _ _ h₂ (λ taken w₃ h₃. next-Kept _ _ h₃ (λ port w₄ h₄.
        let row = domain_of d t record_id token port in
        next-Fails Kept _ _
          (naming-Fails Kept _ (create_row o row w₄) (create_row-Fails o row w₄ h₄))
          (λ _ w₅ _. spawned-Fails Kept o row (spawn o d.id w₅))))))

  put_ingress-Kept :
      (o : Outside) (d : Domain) (routes : List DomainRoute) (w : World)
      → Kept w
      → Kept (put_ingress o d routes w).0
  unfolding put_ingress perform ask
  put_ingress-Kept o d routes w h = h

  with_proxy_entry-Fails :
      (o : Outside) (d : Draft) (t : TunnelInfo) (w : World)
      → Kept w
      → Fails Kept (with_proxy_entry o d t w)
  unfolding with_proxy_entry perform ask
  with_proxy_entry-Fails o d t w h =
      next-Kept _ _
        (ingress_failed-Kept (put_ingress o (domain_of d t [] [] 0) d.routes w)
          (put_ingress-Kept o (domain_of d t [] [] 0) d.routes w h))
        (λ _ w₁ h₁. next-Kept _ _ h₁ (λ record_id w₂ h₂.
          reverted-Fails Kept Kept (undo_record o d record_id) (persist o d t record_id w₂)
            (persist-Fails o d t record_id w₂ h₂) (λ w₃ h₃. h₃)))
    where
      ingress_failed-Kept : (r : World × Result (Unit {0})) → Kept r.0 → Kept (ingress_failed r).0
      ingress_failed-Kept (w, ok a) k = k
      ingress_failed-Kept (w, err e) k = k

-- The tables of the database, and the proxy's entries of the domains other than `id`.
abbrev OthersKept : World → Bytes → Db → ProxyServer → Type 0
OthersKept w id db p =
    (db ≡ w.db)
    × ((j : Bytes) → text_eq id j ≡ false → lookup j p.by_domain ≡ lookup j w.proxy.by_domain)

abbrev pub AllKept : World → Db → ProxyServer → Type 0
AllKept w db p = (db ≡ w.db) × ((j : Bytes) → lookup j p.by_domain ≡ lookup j w.proxy.by_domain)

removed :
    (w : World) (id : Bytes) (db : Db) (p : ProxyServer)
    → lookup id w.proxy.by_domain ≡ none
    → OthersKept w id db p
    → AllKept w db (remove_domain p id)
unfolding remove_domain
removed w id db p absent (same, others) = (
  same,
  λ j. elim (Bool-cases (text_eq id j)) [
    | inr other ↦ lookup-without id j p.by_domain ∙ simp other (others j other)
    | inl own ↦
        lookup-without id j p.by_domain
        ∙ simp own
            (sym (ap (λ k. lookup k w.proxy.by_domain) (sym ((text_eq_iff id j).0 own)) ∙ absent))
  ],
)

with_tunnel-Fails :
    (o : Outside) (d : Draft) (t : TunnelInfo) (w : World)
    → lookup d.id w.proxy.by_domain ≡ none
    → Fails (λ w'. AllKept w w'.db w'.proxy) (with_tunnel o d t w)
unfolding with_tunnel Fails next
with_tunnel-Fails o d t w absent =
    elim (commit_domain-Installs o.net w.proxy d.id d.hostname d.routes) [
      | inr (e, same) ↦ rw same (refl, λ j. refl)
      | inl (done, installed) ↦ rw done (
          reverted-Fails (λ w'. AllKept w w'.db w'.proxy) (λ w'. OthersKept w d.id w'.db w'.proxy)
            (undo_proxy d) (with_proxy_entry o d t _)
            (with_proxy_entry-Fails (OthersKept w d.id) o d t _ (refl, installed.others))
            (λ w' kept. removed w d.id w'.db w'.proxy absent kept))
    ]

-- The world after a creation that failed in its second half, from the world `w` before it.
pub record IsUndone (o : Outside) (d : Draft) (w w' : World) : Type 0 where
  pub db : w'.db ≡ w.db
  pub proxy : (j : Bytes) → lookup j w'.proxy.by_domain ≡ lookup j w.proxy.by_domain
  pub tunnel :
      ((e : Error) × (o.new_tunnel w.history d.hostname ≡ err e))
      ⊎ ((t : TunnelInfo) × (deleted : Bool) × (rest : List Entry) × (o.new_tunnel w.history
              d.hostname
            ≡ ok t)
          × (w'.history ≡ (tunnel_deleted t.tunnel_id, deleted) ∷ rest))

build_from :
    (o : Outside) (d : Draft) (w : World) (h : List Entry) (m : Bytes) (r : Result TunnelInfo)
    → o.new_tunnel w.history d.hostname ≡ r
    → lookup d.id w.proxy.by_domain ≡ none
    → Fails (IsUndone o d w) (
        next
          (λ t. or_revert (with_tunnel o d t) (undo_tunnel o t))
          (record w { history = h }, wrap_err m r))
unfolding Fails next ask perform
build_from o d w h m (err e) failed absent = record {
  db = refl;
  proxy = λ j. refl;
  tunnel = inl (e, failed);
}
build_from o d w h m (ok t) made absent =
    reverted-Fails (IsUndone o d w) (λ w'. AllKept w w'.db w'.proxy) (undo_tunnel o t)
      (with_tunnel o d t (record w { history = h }))
      (with_tunnel-Fails o d t (record w { history = h }) absent)
      (λ w' kept. record { db = kept.0; proxy = kept.1; tunnel = inr (t, _, _, made, refl) })

-- From the creation of the tunnel on, `CreateDomain` for an identifier that the proxy does not have
-- either succeeds, or fails with the database and the proxy's entries as they were; and if the
-- tunnel was created, then its deletion is the last call that was made.
pub build-IsUndone :
    (o : Outside) (d : Draft) (w : World)
    → lookup d.id w.proxy.by_domain ≡ none
    → Fails (IsUndone o d w) (build o d w)
unfolding build ask
build-IsUndone o d w absent =
    build_from o d w _ (codes "service: create tunnel") (o.new_tunnel w.history d.hostname) refl
      absent
