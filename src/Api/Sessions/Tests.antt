-- ===== src/Api/Sessions/Tests.antt =====
-- A kernel session with a volume, whose container does not start; and a caller with another token.
use isobox.Prelude.{Bytes-discrete, [], arith, codes, false, none, refl, some, ℕ, ℕ_discrete, ◌≡◌}
use isobox.Session.Tests.{slots, manager, manager-IsBalanced, answers, unknown_new}
use isobox.Session.{system_failed, err}
use isobox.Session.Files.{Disk, written}
use isobox.Registry.{Registry}
use isobox.Api.Steps.{Caller, StepsWorld}
use isobox.Api.Reply.{Reply}
use isobox.Session.Files
use isobox.Session.Sound.{IsConsistent}
use isobox.Memory.Volume.Tests.{volume, volume_id, manager_with, disk, public}
use isobox.Memory.Volume.Holders.{IsFreeOf}
use isobox.Api.Sessions.{Server, World, CreateRequest}
use isobox.Api.Sessions.Handler.{handle_create_session}
use isobox.Api.Sessions.Handler.Laws.{handle_create_session-Leaves, new_id}
use isobox.Api.Sessions.Settle.{Leaves}
use isobox.Api.Reply.{Response}
use isobox.Session.{Session}

abbrev server : Server slots ℕ
server = record { sessions = manager; volumes = some (manager_with volume); performed = [] }

abbrev world : World
world = record { answers = answers; disk = disk; uuid = codes "c"; swept = false }

abbrev request : CreateRequest
request = record {
  runtime = codes "python";
  ttl_sec = 60;
  volume_id = volume_id;
  network = false;
  kind = codes "kernel";
}

manager-IsConsistent : IsConsistent slots ℕ manager
manager-IsConsistent = record { balanced = manager-IsBalanced; keyed = (refl, (refl, tt)) }

volume-IsFreeOf : IsFreeOf (codes "sess_c") (manager_with volume)
volume-IsFreeOf = record { unheld = ((λ e. ground arith), tt) }

new_id_run : new_id world request ≡ codes "sess_c"
unfolding Bytes-discrete ℕ_discrete
new_id_run = refl

handle_create_session-Leaves_example :
    (sv : Server slots ℕ) × (r : Response Session) × (handle_create_session slots ℕ server world
        (some public)
        (some request)
      ≡ some (sv, r))
    × IsConsistent slots ℕ sv.sessions
    × Leaves slots ℕ
        (new_id world request)
        disk
        public
        volume_id
        (some (manager_with volume))
        sv.volumes
        r
handle_create_session-Leaves_example =
    handle_create_session-Leaves slots ℕ server world (some public) request manager-IsConsistent
      refl (rw new_id_run volume-IsFreeOf) (rw new_id_run unknown_new)

abbrev files : Files.Disk
files = record { stat = λ p. none; content = λ p. none; entries = λ p. none; dir_size = λ p. 0 }

abbrev steps : StepsWorld ℕ
steps = record {
  sse = false;
  flusher = false;
  run = λ s. err system_failed;
  kernel = λ code ms. record {
    step = code;
    written = false;
    lines = [];
    timed_out = false;
    elapsed_ms = ms;
    now = 0;
  };
  freed = false;
  now = 8;
  missing = false;
}

abbrev stranger : Caller
stranger = record { context = some (codes "public"); id = codes "sess_a"; token = codes "x" }

abbrev languages : Registry
languages = record { by_key = []; all = [] }
