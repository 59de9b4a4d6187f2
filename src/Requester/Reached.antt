-- ===== src/Requester/Reached.antt =====
-- Any sequence of calls of a requester and of its linkers.
use mathlib.Core.Path.{subst}
use gnyproxy.Prelude.{ℕ, ◌≡◌, sym, Bool, none, ok, Holds-ok, refl}
use gnyproxy.Prelude.Int.{ℤ}
use gnyproxy.Socket.{Socket}
use gnyproxy.Client.{Dial}
use gnyproxy.ReqLinker.{Exchange, Endpoint, Links, get_write_size, write, read, destroy}
use gnyproxy.ReqLinker.Idle.{
  IsIdle, Leaves, get_write_size-IsIdle, write-IsIdle, read-IsIdle, destroy-IsIdle,
}
use gnyproxy.Requester.{Wrapping, Requester, create, add_request}
use gnyproxy.Requester.Given.{IsWrapping, Handed}
use gnyproxy.Requester.Handing.{add_request-Handed}

module _ (X : Exchange) (W : Wrapping X) where
  -- `leaves` is any call that does not change the linkers.
  pub data Reached : Requester X W → Type 0 where
    creates : (world : X.World) (max_connections : ℤ) → Reached (create X W world max_connections)
    requests :
        (r : Requester X W) (endpoint : Endpoint) (gen : X.Gen) (dial : Dial) (at at_wrapper : ℕ)
        (p : Bool × Requester X W)
        → Reached r
        → r.links.linkers at ≡ none
        → add_request X W r endpoint gen dial at at_wrapper ≡ ok p
        → Reached p.1
    sizes :
        (r : Requester X W) (at : ℕ) (p : ℕ × Links X)
        → Reached r
        → get_write_size X r.links at ≡ ok p
        → Reached (record r { links = p.1 })
    writes :
        (r : Requester X W) (at : ℕ) (s : Socket) (max_write : ℕ) (p : ℤ × Links X)
        → Reached r
        → write X r.links at s max_write ≡ ok p
        → Reached (record r { links = p.1 })
    reads :
        (r : Requester X W) (at : ℕ) (s : Socket) (max_read : ℕ) (p : ℤ × Links X)
        → Reached r
        → read X r.links at s max_read ≡ ok p
        → Reached (record r { links = p.1 })
    destroys :
        (r : Requester X W) (at : ℕ) (links : Links X)
        → Reached r
        → destroy X r.links at ≡ ok links
        → Reached (record r { links = links })
    leaves : (r r' : Requester X W) → Reached r → r'.links ≡ r.links → Reached r'

  create-IsIdle :
      (world : X.World) (max_connections : ℤ) → IsIdle X (create X W world max_connections).links
  unfolding create gnyproxy.PointerSet.contains
  create-IsIdle world max_connections = record { kept = λ e a. refl; ascending = λ e. tt }

  -- With wrapper functions as for add_request: after any sequence of calls of a requester and of
  -- its linkers, a linker's address is in req_mp under an endpoint exactly where the linker
  -- exists, has no generator and belongs to that endpoint, and each set is in ascending order.
  pub Reached-IsIdle : IsWrapping X W → (r : Requester X W) → Reached r → IsIdle X r.links
  Reached-IsIdle lawful r (creates world max_connections) = create-IsIdle world max_connections
  Reached-IsIdle lawful r (requests r0 endpoint gen dial at at_wrapper p before fresh eq) =
      (Holds-ok (Handed X W r0.links) _ p eq (
        add_request-Handed X W lawful endpoint gen at r0 dial at_wrapper
          (Reached-IsIdle lawful r0 before) fresh)).1
  Reached-IsIdle lawful r (sizes r0 at p before eq) =
      Holds-ok (Leaves X) _ p eq
        (get_write_size-IsIdle X r0.links at (Reached-IsIdle lawful r0 before))
  Reached-IsIdle lawful r (writes r0 at s max_write p before eq) =
      Holds-ok (Leaves X) _ p eq
        (write-IsIdle X r0.links at (Reached-IsIdle lawful r0 before) s max_write)
  Reached-IsIdle lawful r (reads r0 at s max_read p before eq) =
      Holds-ok (Leaves X) _ p eq
        (read-IsIdle X r0.links at (Reached-IsIdle lawful r0 before) s max_read)
  Reached-IsIdle lawful r (destroys r0 at links before eq) =
      Holds-ok (IsIdle X) _ links eq
        (destroy-IsIdle X r0.links at (Reached-IsIdle lawful r0 before))
  Reached-IsIdle lawful r (leaves r0 r' before same) =
      subst (IsIdle X) (sym same) (Reached-IsIdle lawful r0 before)
