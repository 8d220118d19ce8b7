-- ===== src/Tests/Catalogs.antt =====
-- Witnesses of the theorems on the catalog of lookups.
use dasher.Common.{false, ℕ, String, some, Option, [], ◌∷◌, List, All, ◌↔◌}
use dasher.Common.Dict.{Dict}
use dasher.Common.Int.{ℤ, pos}
use dasher.Catalog.{build_lookup_catalog}
use dasher.Catalog.Builds.{build_lookup_catalog_iff}
use dasher.Catalog.Entries.{IsFit}
use dasher.Config.{LookupSpecRaw}
use dasher.Event.Parse.{Succeeds, ok}
use dasher.Lookup.Cache.{CacheEntry, new_cache}
use dasher.Lookup.Cached.{Formats, Clock}
use dasher.Lookup.Sql.{Queries, default_registry}
use dasher.Memory.{Memory}
use dasher.Value.{Row, text}

abbrev ann : Row
ann = ("email", text "ann@example.org") ∷ []

-- A database that answers every query with one row.
abbrev queries : Queries (Unit {0}) (Unit {0}) (List Row)
queries = record {
  query = λ timeout pool sql args w. (ok (ann ∷ []), w);
  collect = λ rows w. (ok rows, w);
}

abbrev pub formats : Formats
formats = record { sort_strings = λ ks. ks; print = λ v. "" }

abbrev pub clock : Clock (Unit {0})
clock = record { now = λ w. pos 5; jitter = λ w. pos 0 }

abbrev pub blank : ℕ → CacheEntry (List Row)
blank a = record { key = ""; value = []; expires_at = pos 0 }

abbrev memory : Memory (Unit {0})
memory = record {
  outside = tt;
  gateway = record {
    base_url = "";
    auth_url = "";
    app_instance_code = "";
    api_key = "";
    tok = "";
    expiry = pos 0;
  };
  caches = λ a. new_cache blank (pos 0);
  producer = record { instance_id = "a"; closed = false };
  next_cache = 0;
}

abbrev minute : String → Option ℤ
minute s = some (pos 60000000000)

abbrev raws : Dict LookupSpecRaw
raws =
    ("by_id", record { type_name = "sql"; ttl = "1m"; sql = "SELECT 1" })
    ∷ ("by_name", record { type_name = "sql"; ttl = ""; sql = "SELECT 2" })
    ∷ []

build_lookup_catalog_iff_example :
    Succeeds
      (build_lookup_catalog minute
        (default_registry formats clock blank queries)
        (record { pool = some tt })
        raws
        memory).0
    ↔ All (λ e. IsFit {P = Unit {0}} minute (some tt) e.1) raws
build_lookup_catalog_iff_example =
    build_lookup_catalog_iff formats clock blank queries minute (some tt) raws memory
