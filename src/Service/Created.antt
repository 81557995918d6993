-- ===== src/Service/Created.antt =====
-- What a creation that succeeds has stored; its process may not have started.
use tunnel_manager.Prelude.{◌≡◌, refl, ◌∙◌, true, error_text, Result, ok, err}
use tunnel_manager.Prelude.Text.{Bytes, codes}
use tunnel_manager.Model.{Domain, TunnelInfo, error}
use tunnel_manager.Repo
use tunnel_manager.Repo.{Db}
use tunnel_manager.Repo.Laws.{has_key-create}
use tunnel_manager.Service.World.{
  Outside, World, Run, next, ◌>>=◌, try, try_of, perform, wrap_err, written, write_db,
}
use tunnel_manager.Service.Operations.{create_row, publish, update_row, spawn}
use tunnel_manager.Service.Creation.{
  Draft, undo_record, undo_proxy, undo_tunnel, domain_of, reverted, spawned_or_error, persist,
  with_proxy_entry, with_tunnel, build,
}
use tunnel_manager.Service.Startup.Untouched.{Same, spawn-Keeps, update_row-Keeps}

unfoldable pub Succeeds : {A : Type 0} → (A → World → Type 0) → World × Result A → Type 0
Succeeds P (w, ok a) = P a w
Succeeds P (w, err e) = Unit

-- There is a row with the identifier.
abbrev pub HasRow : Bytes → World → Type 0
HasRow id w = Repo.has_key id w.db.domains ≡ true

module _ {B : Type 0} (P : B → World → Type 0) where
  next-Succeeds :
      {A : Type 0} (Q : A → World → Type 0) (f : A → Run B) (r : World × Result A)
      → Succeeds Q r
      → ((a : A) (v : World) → Q a v → Succeeds P (f a v))
      → Succeeds P (next f r)
  unfolding Succeeds next
  next-Succeeds Q f (v, ok a) h k = k a v h
  next-Succeeds Q f (v, err e) h k = tt

  -- What comes first does not matter.
  pub then-Succeeds :
      {A : Type 0} (f : A → Run B) (r : World × Result A)
      → ((a : A) (v : World) → Succeeds P (f a v))
      → Succeeds P (next f r)
  unfolding Succeeds next
  then-Succeeds f (v, ok a) k = k a v
  then-Succeeds f (v, err e) k = tt

  reverted-Succeeds :
      (undo : Run (Unit {0})) (r : World × Result B) → Succeeds P r → Succeeds P (reverted undo r)
  unfolding Succeeds
  reverted-Succeeds undo (v, ok a) h = h
  reverted-Succeeds undo (v, err e) h = tt

  naming-Succeeds :
      (m : Bytes) (r : World × Result B) → Succeeds P r → Succeeds P (r.0, wrap_err m r.1)
  unfolding Succeeds
  naming-Succeeds m (v, ok a) h = h
  naming-Succeeds m (v, err e) h = tt

try-Succeeds :
    {A : Type 0} (P : World → Type 0) (r : World × Result A)
    → P r.0
    → Succeeds (λ a v. P v) (try_of r)
unfolding Succeeds
try-Succeeds P (v, ok a) h = h
try-Succeeds P (v, err e) h = h

-- The row of the domain that is returned.
abbrev pub Stored : Domain → World → Type 0
Stored d w = HasRow d.id w

Same-HasRow : (id : Bytes) (w v : World) → Same w v → HasRow id w → HasRow id v
Same-HasRow id w v s h = s.keys id ∙ h

module _ (o : Outside) (d : Domain) where
  written-HasRow : (v : World) → Succeeds (λ a. HasRow d.id) (write_db (λ db. Repo.create db d) v)
  unfolding Succeeds
  written-HasRow v = by_write (Repo.create v.db d) refl
    where
      by_write :
          (z : Db × Result (Unit {0}))
          → Repo.create v.db d ≡ z
          → Succeeds (λ a. HasRow d.id) (record v { db = z.0 }, z.1)
      by_write (db, ok _) e = has_key-create v.db db d e
      by_write (db, err f) e = tt

  create_row-HasRow : (w : World) → Succeeds (λ a. HasRow d.id) (create_row o d w)
  unfolding create_row publish Succeeds
  create_row-HasRow w =
      next-Succeeds (λ a. HasRow d.id) (λ a. HasRow d.id) _ _
        (then-Succeeds (λ a. HasRow d.id) _ (perform o written w) (λ _ v. written-HasRow v))
        (λ _ v h. h)

  -- The start of the process, and the update of the row if it fails.
  spawned-HasRow :
      (v : World)
      → HasRow d.id v
      → Succeeds Stored ((try (spawn o d.id) >>= λ started. spawned_or_error o d started) v)
  unfolding Succeeds
  spawned-HasRow v h =
      next-Succeeds Stored (λ a. HasRow d.id) _ (try (spawn o d.id) v)
        (try-Succeeds (HasRow d.id) (spawn o d.id v)
          (Same-HasRow d.id v (spawn o d.id v).0 (spawn-Keeps o d.id v) h))
        by_start
    where
      by_start :
          (r : Result (Unit {0})) (u : World)
          → HasRow d.id u
          → Succeeds Stored (spawned_or_error o d r u)
      by_start (ok _) u k = k
      by_start (err e) u k =
          let failed = record d { status = error; last_error = error_text e } in
          next-Succeeds Stored (λ a. HasRow d.id) _ (try (update_row o failed) u)
            (try-Succeeds (HasRow d.id) (update_row o failed u)
              (Same-HasRow d.id u (update_row o failed u).0 (update_row-Keeps o failed u) k))
            (λ _ _ l. l)

module _ (o : Outside) (d : Draft) where
  persist-HasRow :
      (t : TunnelInfo) (record_id : Bytes) (w : World) → Succeeds Stored (persist o d t record_id w)
  unfolding persist
  persist-HasRow t record_id w = then-Succeeds Stored _ _ (λ token w₁.
      then-Succeeds Stored _ _ (λ _ w₂. then-Succeeds Stored _ _ (λ taken w₃.
        then-Succeeds Stored _ _ (λ port w₄.
          next-Succeeds Stored (λ a. HasRow d.id) _ _
            (naming-Succeeds (λ a. HasRow d.id) (codes "service: persist domain")
              (create_row o (domain_of d t record_id token port) w₄)
              (create_row-HasRow o (domain_of d t record_id token port) w₄))
            (λ _ w₅ h. spawned-HasRow o (domain_of d t record_id token port) w₅ h)))))

  with_proxy_entry-HasRow :
      (t : TunnelInfo) (w : World) → Succeeds Stored (with_proxy_entry o d t w)
  unfolding with_proxy_entry
  with_proxy_entry-HasRow t w = then-Succeeds Stored _ _ (λ _ w₁.
      then-Succeeds Stored _ _ (λ record_id w₂.
        reverted-Succeeds Stored (undo_record o d record_id) (persist o d t record_id w₂)
          (persist-HasRow t record_id w₂)))

  with_tunnel-HasRow : (t : TunnelInfo) (w : World) → Succeeds Stored (with_tunnel o d t w)
  unfolding with_tunnel
  with_tunnel-HasRow t w = then-Succeeds Stored _ _ (λ _ w₁.
      reverted-Succeeds Stored (undo_proxy d) (with_proxy_entry o d t w₁)
        (with_proxy_entry-HasRow t w₁))

  pub build-HasRow : (w : World) → Succeeds Stored (build o d w)
  unfolding build
  build-HasRow w = then-Succeeds Stored _ _ (λ t w₁.
      reverted-Succeeds Stored (undo_tunnel o t) (with_tunnel o d t w₁) (with_tunnel-HasRow t w₁))
