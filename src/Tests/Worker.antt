-- ===== src/Tests/Worker.antt =====
-- The theorems about the loop of the worker, at concrete inputs.
use qjazz.Prelude.{ℕ, String, ◌≡◌, false, true, some, List, [], ◌∷◌, ◌++◌, length}
use qjazz.Prelude.Exec.{other_error}
use qjazz.Rpc.Session.{Body}
use qjazz.Rpc.Session.Rules.{IsWithin}
use qjazz.Rpc.Worker.{
  ping_msg, checkout_project_msg, drop_project_msg, clear_cache_msg, list_cache_msg,
  project_info_msg, quit_msg, Arrival, received, interrupted, recv_failed, Worker, waiting, serve,
}
use qjazz.Rpc.Worker.Serving.{replies, serve-Requests}
use qjazz.Rpc.Worker.Bounds.{serve-IsWithin}
use qjazz.Tests.World.{session, config, clock, host}
use qjazz.Tests.Rpc.{manager-IsWithin}

abbrev worker : Worker String
worker = record { session = session; busy = true }

abbrev requests : List Arrival
requests =
    received clock [] (ping_msg (some "hello"))
    ∷ received clock [] (checkout_project_msg "/public/new" true)
    ∷ received clock [] (project_info_msg "/public/old")
    ∷ received clock [] (drop_project_msg "/public/old")
    ∷ received clock [] (checkout_project_msg "nowhere" false)
    ∷ received clock [] clear_cache_msg
    ∷ []

serve-Requests_example :
    let (ending, after) = serve host config "worker" false requests worker in
    (ending ≡ waiting)
    × (after.busy ≡ false)
    × ((answers : List (ℕ × Body)) × (length answers ≡ 6)
        × (after.session.sent ≡ session.sent ++ replies answers))
serve-Requests_example =
    serve-Requests host config "worker" false requests worker (tt, (tt, (tt, (tt, (tt, (tt, tt))))))

abbrev arrivals : List Arrival
arrivals =
    received clock [] (checkout_project_msg "/public/new" true)
    ∷ interrupted
    ∷ received clock (false ∷ true ∷ []) list_cache_msg
    ∷ received clock [] (checkout_project_msg "/public/old" true)
    ∷ recv_failed (other_error "the pipe is broken")
    ∷ received clock [] quit_msg
    ∷ []

serve-IsWithin_example :
    IsWithin 3 (serve host config "worker" true arrivals worker).1.session.manager
serve-IsWithin_example = serve-IsWithin host config "worker" true arrivals worker manager-IsWithin
