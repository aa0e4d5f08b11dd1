-- ===== src/FileStore/Tests.antt =====
-- A store of two messages, one of a sender with a slash in its name.
use generic_text_gateway.Common.{
  pos, length, all, nat_eq, Text, codes, text_eq, is_ascii_digit, member, ℕ, ◌≤◌, ◌≡◌, refl, true,
  false, Option, none, some, List, [], ◌∷◌, ◌++◌, arith,
}
use generic_text_gateway.FileStore.{
  FileStore, is_safe, filename, stream, save_inbound, replay_after, history,
}
use generic_text_gateway.FileStore.Bounds.{
  slash, filename-is_safe, replay-history-length, save_inbound-replay_after,
}

abbrev digit_seven : ℕ → Text
digit_seven n = codes "7"

abbrev intruder : Option Text
intruder = some (codes "../x/Bank")

filename-is_safe_example :
    (all is_safe (filename digit_seven (some (codes "12:00")) intruder 7) ≡ true)
    × (member slash (filename digit_seven (some (codes "12:00")) intruder 7) ≡ false)
unfolding is_ascii_digit
filename-is_safe_example = filename-is_safe digit_seven (some (codes "12:00")) intruder 7 refl

intruder_lem : filename digit_seven (some (codes "12:00")) intruder 7 ≡ codes "1200_..xBank_7.json"
unfolding filename is_safe is_ascii_digit
intruder_lem = refl

abbrev one_kept : FileStore ℕ
one_kept = record {
  files = (codes "a", 10) ∷ [];
  inbox_index = (1, codes "a") ∷ [];
  out_index = [];
  stream_id = codes "s";
  next_id = 2;
  stream_file = some (codes "s", 2);
}

replay-history-length_example :
    (length (replay_after 0 5 one_kept) ≤ 500)
    × (length (history true none (pos 1000) one_kept) ≤ 200)
replay-history-length_example = replay-history-length one_kept 0 5 true none (pos 1000)

save_inbound-replay_after_example :
    ((earlier : List ℕ) × (replay_after 0 5 (save_inbound true true 2 (codes "b") 20 3 one_kept).1
        ≡ earlier ++ 20 ∷ []))
    × (stream (save_inbound true true 2 (codes "b") 20 3 one_kept).1 ≡ (codes "s", 3))
    × ((save_inbound true true 2 (codes "b") 20 3 one_kept).1.stream_file ≡ some (codes "s", 3))
save_inbound-replay_after_example =
    save_inbound-replay_after 2 (codes "b") 20 3 one_kept 0 5 (omega arith) (omega arith)
