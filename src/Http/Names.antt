-- ===== src/Http/Names.antt =====
-- The names of methods and status codes.
use Prim.Native.String.{String}
use text.Mathlib.Text.{◌==◌ as str_eq}
use text.Mathlib.TextEquality.{eq_iff}
use exhy.Common.{◌≡◌, ◌⊎◌, refl, ◌∙◌, inl, inr, List, [], ◌∷◌, All, Bool-cases}
use exhy.Http.{
  HttpMethod, http_delete, http_get, http_head, http_post, http_put, http_connect, http_options,
  http_trace, http_copy, http_lock, http_mkcol, http_move, http_propfind, http_proppatch,
  http_search, http_unlock, http_bind, http_rebind, http_unbind, http_acl, http_report,
  http_mkactivity, http_checkout, http_merge, http_msearch, http_notify, http_subscribe,
  http_unsubscribe, http_patch, http_purge, http_mkcalendar, http_link, http_unlink, http_source,
  invalid_method, http_method_map, method_number, method_strings, http_method_to_string,
  first_equal, string_to_http_method, first_prefix, chars_to_http_method,
}

-- Every method comes back from its name: StringToHttpMethod and CharsToHttpMethod both undo
-- HttpMethodToString, and INVALID_METHOD comes back from "<unknow>".
pub http_method_round :
    (m : HttpMethod)
    → (string_to_http_method (http_method_to_string m) ≡ m)
      × (chars_to_http_method (http_method_to_string m) ≡ m)
unfolding string_to_http_method chars_to_http_method first_equal first_prefix http_method_to_string
    method_number method_strings
http_method_round http_delete = (refl, refl)
http_method_round http_get = (refl, refl)
http_method_round http_head = (refl, refl)
http_method_round http_post = (refl, refl)
http_method_round http_put = (refl, refl)
http_method_round http_connect = (refl, refl)
http_method_round http_options = (refl, refl)
http_method_round http_trace = (refl, refl)
http_method_round http_copy = (refl, refl)
http_method_round http_lock = (refl, refl)
http_method_round http_mkcol = (refl, refl)
http_method_round http_move = (refl, refl)
http_method_round http_propfind = (refl, refl)
http_method_round http_proppatch = (refl, refl)
http_method_round http_search = (refl, refl)
http_method_round http_unlock = (refl, refl)
http_method_round http_bind = (refl, refl)
http_method_round http_rebind = (refl, refl)
http_method_round http_unbind = (refl, refl)
http_method_round http_acl = (refl, refl)
http_method_round http_report = (refl, refl)
http_method_round http_mkactivity = (refl, refl)
http_method_round http_checkout = (refl, refl)
http_method_round http_merge = (refl, refl)
http_method_round http_msearch = (refl, refl)
http_method_round http_notify = (refl, refl)
http_method_round http_subscribe = (refl, refl)
http_method_round http_unsubscribe = (refl, refl)
http_method_round http_patch = (refl, refl)
http_method_round http_purge = (refl, refl)
http_method_round http_mkcalendar = (refl, refl)
http_method_round http_link = (refl, refl)
http_method_round http_unlink = (refl, refl)
http_method_round http_source = (refl, refl)
http_method_round invalid_method = (refl, refl)

Named : HttpMethod × String → Type 0
Named row = http_method_to_string row.0 ≡ row.1

http_method_map-Named : All Named http_method_map
unfolding Named http_method_to_string method_number method_strings
http_method_map-Named = (
  refl,
  (
    refl,
    (
      refl,
      (
        refl,
        (
          refl,
          (
            refl,
            (
              refl,
              (
                refl,
                (
                  refl,
                  (
                    refl,
                    (
                      refl,
                      (
                        refl,
                        (
                          refl,
                          (
                            refl,
                            (
                              refl,
                              (
                                refl,
                                (
                                  refl,
                                  (
                                    refl,
                                    (
                                      refl,
                                      (
                                        refl,
                                        (
                                          refl,
                                          (
                                            refl,
                                            (
                                              refl,
                                              (
                                                refl,
                                                (
                                                  refl,
                                                  (
                                                    refl,
                                                    (
                                                      refl,
                                                      (
                                                        refl,
                                                        (
                                                          refl,
                                                          (
                                                            refl,
                                                            (refl, (refl, (refl, (refl, tt)))),
                                                          ),
                                                        ),
                                                      ),
                                                    ),
                                                  ),
                                                ),
                                              ),
                                            ),
                                          ),
                                        ),
                                      ),
                                    ),
                                  ),
                                ),
                              ),
                            ),
                          ),
                        ),
                      ),
                    ),
                  ),
                ),
              ),
            ),
          ),
        ),
      ),
    ),
  ),
)

first_equal_lem :
    (s : String) (rows : List (HttpMethod × String))
    → All Named rows
    → (first_equal s rows ≡ invalid_method) ⊎ (http_method_to_string (first_equal s rows) ≡ s)
unfolding first_equal Named
first_equal_lem s [] h = inl refl
first_equal_lem s (row ∷ rows) (h, hs) = elim (Bool-cases (str_eq row.1 s)) [
  | inl e ↦ inr (rw e (h ∙ (eq_iff row.1 s).0 e))
  | inr e ↦ rw e (first_equal_lem s rows hs)
]

-- StringToHttpMethod accepts nothing but the names: where its result is a method, its name is the string.
pub string_to_http_method_lem :
    (s : String)
    → (string_to_http_method s ≡ invalid_method)
      ⊎ (http_method_to_string (string_to_http_method s) ≡ s)
unfolding string_to_http_method
string_to_http_method_lem s = first_equal_lem s http_method_map http_method_map-Named
