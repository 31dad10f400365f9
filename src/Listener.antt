-- ===== src/Listener.antt =====
-- native_module/src/rcon_server.cpp: `start`, `stop`, `run` and the destructor of RconServer, which
-- the thread of the module's owner and the listener's own thread carry out in turns. The sockets
-- of Windows and the connections are choices of a step; Server models what a connection does.
pub mod Owners
pub mod Waiting
pub mod Shutdown
use open_scum_rcon.Base.{
  ℕ, zero, suc, ◌+◌, ◌-◌, ◌*◌, ◌/◌, ◌%◌, ◌^◌, ◌≤◌, ◌<◌, min, ◌≡◌, refl, sym, ap, ◌∙◌, subst, ◌≢◌,
  ◌↔◌, ◌⊎◌, inl, inr, Bool, true, false, not, ◌&&◌, ◌||◌, Option, none, some, List, [], ◌∷◌, ◌++◌,
  map, append-nil, append_assoc, arith, Bytes, IsBytes, text, same_text, same_text_iff, any_byte,
  all_bytes, starts_with, contains_text, less_text, IsPlain, no_break, plain, ◌⊕◌, IsPlain-take,
  less_text_asym, less_text_connex, starts_with-append, insert_by, sort_by, IsSorted,
  sort_by-IsSorted, sort_by-Perm, length-sort_by, All-sort_by, digits, decimal, signed_decimal,
  decimal-IsPlain, signed_decimal-IsPlain, Perm, Result, ok, err, ◌>>=◌, bind-inversion,
  Result-cases, ltb, leb, ◌==◌, if◌then◌else◌, ltb→lt, ltb→ge, leb→le, ==_iff, Bool-cases,
  Option-inversion, if-elim, Option-cases, length, get_or, take, drop, replicate, length-append,
  take-append-drop, length-take, length-drop, length-replicate, take_all, drop_all, take-append_eq,
  drop-append_eq, take-append_right, drop-drop, get_or-drop, get_or-take, get_or_inside,
  take-append_left, drop-append_left, drop-append_right, get_or-append_left, get_or-append_right,
  All, All-append, All-append_left, All-append_right, All-take, All-drop, All-get_or, All-get_or_lt,
}

-- Where the listener's thread stands in `run`: before its socket is stored, at the test of the loop,
-- in accept, in handle_connection, behind the loop, and at its end.
pub data Phase : Type 0 where
  starting looping accepting serving leaving finished : Phase

-- The owner's thread is free, waits in join, or was ended by std::terminate.
pub data Owner : Type 0 where
  free joining terminated : Owner

pub record Listener : Type 0 where
  pub running : Bool
  -- m_listen_socket, and the local variable of `run`.
  pub listen_socket : Option ℕ
  pub own_socket : ℕ
  -- m_thread, which is joinable until it is joined.
  pub thread : Option Phase
  pub owner : Owner
  -- The calls of closesocket for a listening socket, the last first, but those for a number that a
  -- later socket has again.
  pub closed : List ℕ

abbrev pub idle_listener : Listener
idle_listener = record {
  running = false;
  listen_socket = none;
  own_socket = 0;
  thread = none;
  owner = free;
  closed = [];
}

-- `start`: an assignment to a joinable thread ends the program.
unfoldable pub start : Listener → Bool × Listener
start s = if s.running then (false, s) else elim s.thread [
  | none ↦ (true, record s { running = true; thread = some starting })
  | some phase ↦ (true, record s { running = true; owner = terminated })
]

abbrev pub close_stored : Option ℕ → List ℕ → List ℕ
close_stored none closed = closed
close_stored (some socket) closed = socket ∷ closed

-- `stop`, up to the call of join.
unfoldable pub stop : Listener → Listener
stop s = if not s.running then s else record s {
  running = false;
  closed = close_stored s.listen_socket s.closed;
  owner = elim s.thread [ none ↦ free | some phase ↦ joining ];
}

-- The return of join.
unfoldable pub join : Listener → Listener
join s = elim s.thread [ some finished ↦ record s { thread = none; owner = free } | _ ↦ s ]

-- The destructor behind its call of `stop`: that of a joinable std::thread ends the program.
unfoldable pub destroy_members : Listener → Listener
destroy_members s = elim s.thread [ none ↦ s | some phase ↦ record s { owner = terminated } ]

-- What the calls at the head of `run` come to: no socket, a socket that cannot be bound or cannot
-- listen, or one that listens.
pub data Startup : Type 0 where
  no_socket : Startup
  refused listens : ℕ → Startup

-- The calls of closesocket for other sockets.
unfoldable pub without : ℕ → List ℕ → List ℕ
without socket [] = []
without socket (other ∷ closed) =
    let rest = without socket closed in if other == socket then rest else other ∷ rest

unfoldable pub run_startup : Startup → Listener → Listener
run_startup no_socket s = record s { running = false; thread = some finished }
run_startup (refused socket) s = record s {
  running = false;
  thread = some finished;
  closed = socket ∷ s.closed;
}
run_startup (listens socket) s = record s {
  listen_socket = some socket;
  own_socket = socket;
  closed = without socket s.closed;
  thread = some looping;
}

-- The test of the loop.
unfoldable pub run_test : Listener → Listener
run_test s = record s { thread = some (if s.running then accepting else leaving) }

-- accept, with a client or without, and the return of handle_connection.
unfoldable pub run_accept : Bool → Listener → Listener
run_accept has_client s = record s { thread = some (if has_client then serving else leaving) }

unfoldable pub run_served : Listener → Listener
run_served s = record s { thread = some looping }

-- Behind the loop.
unfoldable pub run_end : Listener → Listener
run_end s = record s { running = false; thread = some finished; closed = s.own_socket ∷ s.closed }

abbrev pub is_closed : ℕ → List ℕ → Bool
is_closed socket closed = any_byte (λ other. other == socket) closed

-- One step of the listener's thread. accept finds no client on a socket that is closed, and may fail
-- on any; a connection may end at any time, by what its client or the network does.
pub data ThreadStep (s : Listener) : Listener → Type 0 where
  starts : (startup : Startup) → s.thread ≡ some starting → ThreadStep s (run_startup startup s)
  tests : s.thread ≡ some looping → ThreadStep s (run_test s)
  accepts :
      s.thread ≡ some accepting
      → is_closed s.own_socket s.closed ≡ false
      → ThreadStep s (run_accept true s)
  fails : s.thread ≡ some accepting → ThreadStep s (run_accept false s)
  serves : s.thread ≡ some serving → ThreadStep s (run_served s)
  ends : s.thread ≡ some leaving → ThreadStep s (run_end s)

-- A step that the thread takes by itself, without a client or a failure of the network: accept on an
-- open socket and handle_connection make none.
pub data OwnStep (s : Listener) : Listener → Type 0 where
  begins : (startup : Startup) → s.thread ≡ some starting → OwnStep s (run_startup startup s)
  looks : s.thread ≡ some looping → OwnStep s (run_test s)
  wakes :
      s.thread ≡ some accepting
      → is_closed s.own_socket s.closed ≡ true
      → OwnStep s (run_accept false s)
  leaves : s.thread ≡ some leaving → OwnStep s (run_end s)

-- A step of either thread.
pub data Step (s : Listener) : Listener → Type 0 where
  by_thread : (t : Listener) → ThreadStep s t → Step s t
  by_start : s.owner ≡ free → Step s (start s).1
  by_stop : s.owner ≡ free → Step s (stop s)
  by_join : s.owner ≡ joining → s.thread ≡ some finished → Step s (join s)

pub data Reach : Listener → Type 0 where
  initial : Reach idle_listener
  next : (s t : Listener) → Reach s → Step s t → Reach t
