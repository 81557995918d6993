-- ===== src/Service/Deletion.antt =====
-- What `DeleteDomain` of internal/services/domain/delete.go leaves in the database and the proxy. A
-- process, the tunnel and the DNS record at Cloudflare are not looked at here.
use tunnel_manager.Prelude.{
  ◌≡◌, refl, sym, ap, ◌∙◌, inl, inr, Bool, true, false, List, ◌∷◌, none, Result, ok, err,
}
use tunnel_manager.Prelude.Text.{Bytes, codes, text_eq_refl}
use mathlib.Core.Path.{subst}
use tunnel_manager.Model.{Domain, DomainRoute}
use tunnel_manager.Repo
use tunnel_manager.Repo.{Db}
use tunnel_manager.Repo.Laws.{IsGone, delete-IsAtomic, delete-IsGone}
use tunnel_manager.Proxy.{ProxyServer, remove_domain}
use tunnel_manager.Proxy.Table.{lookup, lookup-without}
use tunnel_manager.Proxy.Removal.{IsUnserved, remove_domain-IsUnserved}
use tunnel_manager.Supervisor.{is_running}
use tunnel_manager.Service.World.{
  queried, written, tunnel_deleted, record_deleted, Outside, World, Run, next, try, try_of, ask,
  perform, write_db, succeeded, modify, ◌>>=◌,
}
use tunnel_manager.Service.Operations.{
  publish, repo_get, repo_list_routes, stop_process, stop_if, unless_done, delete_row, close_log,
  unless_deleted, delete_domain,
}

-- The proxy has no entry of the domain, and serves no request by a route of it.
abbrev pub IsRemoved : Bytes → ProxyServer → Type 0
IsRemoved id p = (lookup id p.by_domain ≡ none) × IsUnserved id p

-- What a deletion comes to: the domain is in neither table and not in the proxy, or the database is
-- as it was.
unfoldable pub Clears : Bytes → World → World × Result (Unit {0}) → Type 0
Clears id w (w', ok _) = IsGone w'.db id × IsRemoved id w'.proxy
Clears id w (w', err e) = w'.db ≡ w.db

module _ (id : Bytes) (w : World) where
  next-Clears :
      {A : Type 0} (f : A → Run (Unit {0})) (r : World × Result A)
      → r.0.db ≡ w.db
      → ((a : A) (w' : World) → w'.db ≡ w.db → Clears id w (f a w'))
      → Clears id w (next f r)
  unfolding Clears next
  next-Clears f (w', ok a) same k = k a w' same
  next-Clears f (w', err e) same k = same

  next-db :
      {A B : Type 0} (f : A → Run B) (r : World × Result A)
      → r.0.db ≡ w.db
      → ((a : A) (w' : World) → w'.db ≡ w.db → (f a w').0.db ≡ w.db)
      → (next f r).0.db ≡ w.db
  unfolding next
  next-db f (w', ok a) same k = k a w' same
  next-db f (w', err e) same k = same

  pub repo_get-db : (o : Outside) (w' : World) → w'.db ≡ w.db → (repo_get o id w').0.db ≡ w.db
  unfolding repo_get perform ask
  repo_get-db o w' same = next-db _ (perform o queried w') same (λ _ w'' same'. same')

  pub repo_list_routes-db :
      (o : Outside) (w' : World) → w'.db ≡ w.db → (repo_list_routes o id w').0.db ≡ w.db
  unfolding repo_list_routes perform ask
  repo_list_routes-db o w' same = next-db _ (perform o queried w') same (λ _ w'' same'. same')

  stop_if-db :
      (o : Outside) (running : Bool) (w' : World)
      → w'.db ≡ w.db
      → (stop_if o id running w').0.db ≡ w.db
  unfolding stop_process
  stop_if-db o true w' same = same
  stop_if-db o false w' same = same

  -- A row that was deleted, or a database as it was; the proxy is not touched.
  RowDeleted : ProxyServer → World × Result (Unit {0}) → Type 0
  RowDeleted p (w', ok _) = IsGone w'.db id × (w'.proxy ≡ p)
  RowDeleted p (w', err e) = w'.db ≡ w.db

  write-RowDeleted :
      (w' : World) (z : Db × Result (Unit {0}))
      → w'.db ≡ w.db
      → Repo.delete w.db id ≡ z
      → RowDeleted w'.proxy (next (λ _. publish) (record w' { db = z.0 }, z.1))
  unfolding RowDeleted next publish
  write-RowDeleted w' (db, ok _) same e = (
    subst (λ (x : Db × Result (Unit {0})). IsGone x.0 id) e
        (delete-IsGone w.db id (ap (λ (x : Db × Result (Unit {0})). x.1) e)),
    refl,
  )
  write-RowDeleted w' (db, err f) same e = elim (delete-IsAtomic w.db id) [
    | inl done ↦ cc (rw e at done)
    | inr (g, failed) ↦ ap (λ (x : Db × Result (Unit {0})). x.0) (sym e ∙ failed)
  ]

  delete_row-RowDeleted :
      (o : Outside) (w' : World) → w'.db ≡ w.db → RowDeleted w'.proxy (delete_row o id w')
  unfolding delete_row perform ask next RowDeleted
  delete_row-RowDeleted o w' same = by_fault (o.fault w'.history written)
    where
      by_fault :
          (r : Result (Unit {0}))
          → RowDeleted w'.proxy (
              next
                (λ _. publish)
                (next
                  (λ _. write_db (λ db. Repo.delete db id))
                  (record w' { history = (written, succeeded r) ∷ w'.history }, r)))
      by_fault (err e) = same
      by_fault (ok _) =
          write-RowDeleted (record w' { history = (written, true) ∷ w'.history })
            (Repo.delete w'.db id) same (ap (λ db. Repo.delete db id) (sym same))

  unless_deleted-Clears :
      (o : Outside) (d : Domain) (routes : List DomainRoute) (p : ProxyServer)
      (r : World × Result (Unit {0}))
      → IsRemoved id p
      → RowDeleted p r
      → Clears id w (next (λ deleted. unless_deleted o d routes deleted) (try_of r))
  unfolding Clears next RowDeleted close_log
  unless_deleted-Clears o d routes p (w', ok _) removed (gone, same) =
      (gone, subst (IsRemoved id) (sym same) removed)
  unless_deleted-Clears o d routes p (w', err e) removed same = same

  remove_domain-IsRemoved : (p : ProxyServer) → IsRemoved id (remove_domain p id)
  unfolding remove_domain
  remove_domain-IsRemoved p =
      (lookup-without id id p.by_domain ∙ simp (text_eq_refl id), remove_domain-IsUnserved p id)

removed-Clears :
    (id : Bytes) (w w' : World) (p : ProxyServer) (f : Unit {0} → Run (Unit {0}))
    → Clears id w (f tt (record w' { proxy = p }))
    → Clears id w (next f (record w' { proxy = p }, ok tt))
unfolding next
removed-Clears id w w' p f h = h

-- The part from the calls of Cloudflare on.
cleaned :
    (o : Outside) (id : Bytes) (w : World) (d : Domain) (routes : List DomainRoute) (w₅ : World)
    → w₅.db ≡ w.db
    → Clears id w (
        (try (perform o (record_deleted d.cloudflare_zone_id d.dns_record_id)) >>= λ _.
        try (perform o (tunnel_deleted d.cloudflare_tunnel_id)) >>= λ _.
        modify (λ v. record v { proxy = remove_domain v.proxy id }) >>= λ _.
        try (delete_row o id) >>= λ deleted. unless_deleted o d routes deleted)
          w₅)
unfolding perform ask
cleaned o id w d routes w₅ e₅ =
    next-Clears id w _ (try (perform o (record_deleted d.cloudflare_zone_id d.dns_record_id)) w₅) e₅
      (λ _ w₆ e₆.
        next-Clears id w _ (try (perform o (tunnel_deleted d.cloudflare_tunnel_id)) w₆) e₆
          (λ _ w₇ e₇.
            removed-Clears id w w₇ (remove_domain w₇.proxy id)
              (λ _. try (delete_row o id) >>= λ deleted. unless_deleted o d routes deleted)
              (unless_deleted-Clears id w o d routes (remove_domain w₇.proxy id)
                (delete_row o id (record w₇ { proxy = remove_domain w₇.proxy id }))
                (remove_domain-IsRemoved id w w₇.proxy)
                (delete_row-RowDeleted id w o (record w₇ { proxy = remove_domain w₇.proxy id })
                  e₇))))

-- `DeleteDomain` either succeeds, and then the domain is found neither in the database, with its
-- routes, nor in the proxy's entries, and no request is served by a route of it, or it fails, and
-- then the database is as it was. What Cloudflare answers to the deletion of the record and of the
-- tunnel decides neither.
pub delete_domain-Clears :
    (o : Outside) (id : Bytes) (w : World) → Clears id w (delete_domain o id w)
unfolding delete_domain
delete_domain-Clears o id w =
    next-Clears id w _ (repo_get o id w) (repo_get-db id w o w refl) (λ d w₁ e₁.
      next-Clears id w _ (repo_list_routes o id w₁) (repo_list_routes-db id w o w₁ e₁)
        (λ routes w₂ e₂.
          next-Clears id w _ (w₂, ok (is_running w₂.supervisor id)) e₂
            (λ running w₃ e₃.
              next-Clears id w _ (stop_if o id running w₃) (stop_if-db id w o running w₃ e₃)
                (λ outcome w₄ e₄.
                  next-Clears id w _ (w₄, unless_done (codes "service: stop process") outcome) e₄
                    (λ _ w₅ e₅. cleaned o id w d routes w₅ e₅)))))
