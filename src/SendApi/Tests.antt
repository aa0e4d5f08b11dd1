-- ===== src/SendApi/Tests.antt =====
-- A request from a template: a number, and a text with spaces.
use generic_text_gateway.Common.{
  pos, nat_eq, codes, text_beq, text_eq, starts_with, is_space, lstrip, rstrip, strip,
  is_ascii_digit, is_digits, ascii_table, ◌≡◌, refl, none, some, [], ◌∷◌,
}
use generic_text_gateway.Auth.{partition}
use generic_text_gateway.SendApi.{
  Library, SendRequest, normalize_text, normalize_items, normalize_targets, squeeze, compare_digest,
  check_auth, read_body, rstrip_slashes, do_post, number, string, many, missing, object, forward,
  raised,
}
use generic_text_gateway.SendApi.Forwarded.{Carries, IsForwarded, do_post-IsForwarded}

abbrev py : Library
py = record {
  str = λ n. codes "4915";
  lower = λ s. s;
  int = λ s. some (pos 2);
  loads = λ b. object (record {
    to = many (number (pos 4915) ∷ string (codes " 0 555") ∷ []);
    text = some (codes "hi");
    phone_numbers = missing;
    message_text = none;
  });
  b64decode = λ s. some (codes "ha:k");
  digits = ascii_table;
}

abbrev q : SendRequest
q = record {
  path = codes "/v1/send/";
  authorization = some (codes "basic aGE6aw==");
  content_length = some (codes "2");
  rfile = 123 ∷ 125 ∷ [];
}

do_post_lem :
    do_post py (codes "ha") (codes "k") q
    ≡ forward (codes "+4915" ∷ codes "+0555" ∷ []) (codes "hi")
unfolding do_post compare_digest check_auth read_body rstrip_slashes normalize_targets
    normalize_items normalize_text squeeze partition strip lstrip rstrip is_space text_beq
    starts_with is_digits is_ascii_digit
do_post_lem = refl

do_post-IsForwarded_example :
    Carries py (codes "ha") (codes "k") q.authorization
    × IsForwarded (codes "+4915" ∷ codes "+0555" ∷ []) (codes "hi")
do_post-IsForwarded_example =
    do_post-IsForwarded py (λ n. refl) (codes "ha") (codes "k") q do_post_lem

-- A password beyond ASCII ends the request with an exception.
umlaut_raises : do_post py (codes "ha") (252 ∷ []) q ≡ raised
unfolding do_post compare_digest check_auth partition text_beq
umlaut_raises = refl
