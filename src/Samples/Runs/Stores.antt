-- ===== src/Samples/Runs/Stores.antt =====
-- Samples for the stores of keel-agentd: a save, one that is cut off, and a removal. A record is
-- text, whose first three bytes are its name.
use kubsd.Base.{◌≡◌, refl, List, [], ◌∷◌, ok, take}
use kubsd.Base.Dict
use kubsd.Base.Dict.{Dict}
use kubsd.Base.Str.{Str, bytes}
use kubsd.Agent.Files.Memory.{memory}
use kubsd.Agent.Reconciler.{collect}
use kubsd.Agent.Store.{Codec, load_all}
use kubsd.Agent.Store.Durable.{StoreStep, saved, removed, cut_off, run_map}
use kubsd.Agent.Store.Paths.{IsFileName}
use kubsd.Agent.Store.Restart.{run_on-load_all}
use kubsd.Agent.Store.Simulated.{IsDirectory, run_on}

abbrev text : Codec Str
text = record { print = λ r. r; read = λ s. ok s }

abbrev jails_dir : Str
jails_dir = bytes "/var/db/keel"

abbrev steps : List (StoreStep text jails_dir)
steps =
    saved (bytes "web") (bytes "web:1")
    ∷ saved (bytes "db1") (bytes "db1:1")
    ∷ saved (bytes "web") (bytes "web:2")
    ∷ cut_off (bytes "web") (bytes "web:3")
    ∷ removed (bytes "db1")
    ∷ []

memory-IsDirectory : IsDirectory memory (λ fs. fs)
memory-IsDirectory = record {
  creates = λ dir. record { shows = λ fs. refl };
  writes = λ path content. record { shows = λ fs. refl };
  renames = λ from to. record { shows = λ fs. refl };
  lists = λ dir. record { shows = λ fs. refl };
  reads_file = λ path. record { shows = λ fs. refl };
  removes = λ path. record { shows = λ fs. refl };
}

web : IsFileName (bytes "web") × (take 3 (bytes "web:1") ≡ bytes "web")
web = ((refl, (b'w', bytes "eb", refl)), refl)

db : IsFileName (bytes "db1") × (take 3 (bytes "db1:1") ≡ bytes "db1")
db = ((refl, (b'd', bytes "b1", refl)), refl)

run_on-load_all_example :
    (w : Dict Str) × (after : Dict Str) × (rs : List Str) × (run_on memory
        (λ fs. fs)
        text
        jails_dir
        steps
        []
      ≡ (w, ok tt))
    × (load_all memory text jails_dir w ≡ (after, ok rs))
    × ((name : Str)
        → Dict.get name (collect (take 3) rs []) ≡ Dict.get name (run_map text jails_dir steps []))
run_on-load_all_example =
    run_on-load_all text jails_dir (take 3) (λ r. refl) memory (λ fs. fs) memory-IsDirectory [] refl
      steps (web, (db, (web, (web.0, (tt, tt)))))
