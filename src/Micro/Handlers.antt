-- ===== src/Micro/Handlers.antt =====
-- The life of the handler contexts (struct MicroServiceState): contexts are made by the methods that
-- add endpoints, used by requests on the C client's threads, and released by the done handler. Each
-- step is one section under the state's lock, or one call of the C client.
pub mod Released
use module_nats.Common.{
  ℕ, zero, suc, ◌+◌, ◌<◌, ◌≡◌, Bool, true, false, List, [], ◌∷◌, ◌++◌, ◌==◌, if◌then◌else◌, count,
}

-- struct MicroServiceState, with the contexts that were deleted, newest first. A context is named by a
-- number that stands for its pointer.
pub record State : Type 0 where
  pub handlers : List ℕ
  pub done : Bool
  pub released : List ℕ

-- QoreNatsMicroService::releaseHandlers
unfoldable pub release_handlers : List ℕ → State → State
release_handlers [] s = s
release_handlers (x ∷ xs) s = release_handlers xs (record s { released = x ∷ s.released })

-- QoreNatsMicroService::registerHandler
unfoldable pub register_handler : ℕ → State → State
unfolding release_handlers
register_handler x s =
    if s.done then release_handlers (x ∷ []) s else record s { handlers = s.handlers ++ x ∷ [] }

-- QoreNatsMicroService::serviceDone
unfoldable pub service_done : State → State
unfolding release_handlers
service_done s = release_handlers s.handlers (record s { handlers = []; done = true })

-- `ctx->cleanup(xsink); delete ctx;`
abbrev pub delete_context : ℕ → State → State
delete_context x s = record s { released = x ∷ s.released }

unfoldable pub remove : ℕ → List ℕ → List ℕ
remove x [] = []
remove x (y ∷ ys) = let rest = remove x ys in if y == x then ys else y ∷ rest

-- Each context that a method has made is first in the hands of the call that adds its endpoint
-- (`adding`), and then, the endpoint added, waits to be registered (`added`). `live` and `completed` are
-- what the C client knows: the contexts of the endpoints that it added, and whether the last endpoint is
-- complete. `misused` counts the requests that were handled with a deleted context.
pub record System : Type 0 where
  pub next : ℕ
  pub state : State
  pub adding : List ℕ
  pub added : List ℕ
  pub live : List ℕ
  pub completed : Bool
  pub misused : ℕ

abbrev pub created : System
created = record {
  next = 0;
  state = record { handlers = []; done = false; released = [] };
  adding = [];
  added = [];
  live = [];
  completed = false;
  misused = 0;
}

-- `ctx = new MicroEndpointCallbackContext();`
abbrev pub made : System → System
made s = record s { next = suc s.next; adding = s.next ∷ s.adding }

-- `if (err) { ... }`
abbrev pub refused : ℕ → System → System
refused x s = record s { state = delete_context x s.state; adding = remove x s.adding }

-- The C client added the endpoint.
abbrev pub accepted : ℕ → System → System
accepted x s = record s { adding = remove x s.adding; added = x ∷ s.added; live = x ∷ s.live }

abbrev pub registered : ℕ → System → System
registered x s = record s { state = register_handler x s.state; added = remove x s.added }

-- requestHandler
abbrev pub handled : ℕ → System → System
handled x s = elim (count x s.state.released) [
  | zero ↦ s
  | suc _ ↦ record s { misused = suc s.misused }
]

pub data Step (s : System) : System → Type 0 where
  make : Step s (made s)
  refuse : (x : ℕ) → 0 < count x s.adding → Step s (refused x s)
  accept : (x : ℕ) → 0 < count x s.adding → Step s (accepted x s)
  register : (x : ℕ) → 0 < count x s.added → Step s (registered x s)
  -- the C client calls a handler for an endpoint that it added, while the endpoints are not complete
  request : (x : ℕ) → s.completed ≡ false → 0 < count x s.live → Step s (handled x s)
  -- the last endpoint is complete
  complete :
      s.completed ≡ false → Step s (record s { completed = true; state = service_done s.state })

pub data Reach : System → Type 0 where
  start : Reach created
  later : {s t : System} → Reach s → Step s t → Reach t
