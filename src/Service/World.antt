-- ===== src/Service/World.antt =====
-- The state that the domain service shares with its collaborators, what the outside answers, and
-- the operations as functions that pass the state on.
use tunnel_manager.Prelude.{ℕ, Bool, true, false, List, ◌∷◌, Option, Result, ok, err, wrap}
use tunnel_manager.Prelude.Text.{Bytes}
use tunnel_manager.Model.{CloudflareZone, TunnelInfo, IngressRule}
use tunnel_manager.Repo.{Db}
use tunnel_manager.Hub.{Hub}
use tunnel_manager.LogBuf.{Buffer}
use tunnel_manager.Proxy.{NetLibrary, ProxyServer}
use tunnel_manager.Crypto.{CipherLibrary}
use tunnel_manager.Supervisor.{Supervisor}
use tunnel_manager.PortAlloc.{Allocator}

-- A call that leaves the process, with the arguments that matter. `queried` and `written` are the
-- calls of the database, and `signalled` sends a process SIGTERM.
pub data Call : Type 0 where
  zones_listed : Call
  tunnel_created : Bytes → Call
  tunnel_deleted : Bytes → Call
  ingress_put : Bytes → Bytes → List IngressRule → Call
  record_created : Bytes → Bytes → Bytes → Call
  record_deleted : Bytes → Bytes → Call
  queried written : Call
  signalled log_opened : Bytes → Call

-- A call that was made, and whether it succeeded.
abbrev pub Entry : Type 0
Entry = Call × Bool

-- What the outside answers, as it likes: each answer may depend on all the calls so far.
pub record Outside : Type 0 where
  pub net : NetLibrary
  pub cipher : CipherLibrary
  pub key : Bytes
  pub ports : Allocator
  pub fault : List Entry → Call → Result (Unit {0})
  pub zones : List Entry → Result (List CloudflareZone)
  pub new_tunnel : List Entry → Bytes → Result TunnelInfo
  pub new_record : List Entry → Bytes → Bytes → Bytes → Result Bytes
  pub new_process : List Entry → Bytes → Result ℕ
  pub log_file : List Entry → Bytes → Result Bytes
  pub random : List Entry → Result Bytes
  pub clock : List Entry → ℕ
  pub uuid : List Entry → ℕ → Bytes

-- `history` has the latest call first.
pub record World : Type 0 where
  pub history : List Entry
  pub db : Db
  pub proxy : ProxyServer
  pub supervisor : Supervisor
  pub logs : Bytes → Option Buffer
  pub hub : Hub

abbrev pub Run : Type 0 → Type 0
Run A = World → World × Result A

unfoldable pub next : {A B : Type 0} → (A → Run B) → World × Result A → World × Result B
next f (w, ok a) = f a w
next f (w, err e) = (w, err e)

infixl 5 ◌>>=◌ ◌>>◌
abbrev pub ◌>>=◌ : {A B : Type 0} → Run A → (A → Run B) → Run B
m >>= f = λ w. next f (m w)

abbrev pub ◌>>◌ : {B : Type 0} → Run (Unit {0}) → Run B → Run B
m >> k = m >>= λ _. k

abbrev pub return : {A : Type 0} → A → Run A
return a w = (w, ok a)

abbrev pub lift : {A : Type 0} → Result A → Run A
lift r w = (w, r)

abbrev pub try_of : {A : Type 0} → World × Result A → World × Result (Result A)
try_of (w, r) = (w, ok r)

-- The error as a value, for the code that goes on after one.
abbrev pub try : {A : Type 0} → Run A → Run (Result A)
try m w = try_of (m w)

abbrev pub wrap_err : {A : Type 0} → Bytes → Result A → Result A
wrap_err m (ok a) = ok a
wrap_err m (err e) = err (wrap m e)

abbrev pub read : {A : Type 0} → (World → A) → Run A
read f w = (w, ok (f w))

abbrev pub modify : (World → World) → Run (Unit {0})
modify f w = (f w, ok tt)

abbrev pub succeeded : {A : Type 0} → Result A → Bool
succeeded (ok a) = true
succeeded (err e) = false

-- A call to the outside, with its answer.
unfoldable pub ask : {A : Type 0} → Call → (List Entry → Result A) → Run A
ask c answer w =
    (record w { history = (c, succeeded (answer w.history)) ∷ w.history }, answer w.history)

unfoldable pub perform : Outside → Call → Run (Unit {0})
unfolding ask
perform o c = ask c (λ h. o.fault h c)

-- A write to the database that takes effect if the database does not fail.
abbrev pub write_db : (Db → Db × Result (Unit {0})) → Run (Unit {0})
write_db f w = (record w { db = (f w.db).0 }, (f w.db).1)

-- An update of the proxy's tables.
abbrev pub with_proxy : (ProxyServer → ProxyServer × Result (Unit {0})) → Run (Unit {0})
with_proxy f w = (record w { proxy = (f w.proxy).0 }, (f w.proxy).1)
