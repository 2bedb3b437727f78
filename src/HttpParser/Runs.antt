-- ===== src/HttpParser/Runs.antt =====
-- Runs of the callbacks.
use exhy.Common.Text.{codes}
use exhy.Common.{◌&&◌, ◌≡◌, List, [], ◌∷◌, ◌==◌}
use exhy.Http.Messages.{map_find}
use exhy.HttpParser.{Event, request_method, http_version, http_field, new_parsed, callbacks}
use exhy.HttpParser.Callbacks.{are_accepted, latest, callbacks_lem}

abbrev some_events : List Event
some_events =
    request_method "GET / HTTP/1.2"
    ∷ http_version (codes "HTTP/1.2")
    ∷ http_field (codes "Host") (codes "a")
    ∷ http_field (codes "HOST") (codes "b")
    ∷ []

callbacks_lem_example :
    (map_find (codes "host") (callbacks some_events new_parsed).request.headers
      ≡ latest (codes "host") some_events (map_find (codes "host") []))
    × (((callbacks some_events new_parsed).error == 0) ≡ (are_accepted some_events && (0 == 0)))
callbacks_lem_example = callbacks_lem some_events new_parsed (codes "host")
