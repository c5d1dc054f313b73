-- ===== src/Forwarding/Examples.antt =====
-- Three targets answer a forwarded read.
use verm.Prelude.{
  ℕ, zero, suc, arith, All, Bytes, bytes_eq, index_byte, before_byte, behind_byte, split, take,
  drop, true, map, false, Option, none, some, List, [], ◌∷◌, ◌++◌, codes, length, ◌≡◌, ◌↔◌, ◌≤◌,
  refl,
}
use verm.Http.{HttpRequest, empty_response}
use verm.Upload.HashName.Shape.{IsNameChar}
use verm.Forwarding.Choice.{
  should_forward_read, extension_here, last_is_zero, matches_hash, hash_here, chars_here,
}
use verm.Forwarding.Choice.Named.{should_forward_read-named}
use verm.Forwarding.Request.{query_values, forward_url, values_of}
use verm.Forwarding.Request.Loop.{should_forward_read-forwarded}
use verm.Forwarding.{successful, Reply, gather, first_reply, forward_read}
use verm.Forwarding.Race.{replies, gather_first, forward_read-none_iff}

abbrev ok_reply : Reply
ok_reply = record { status = 200; header = []; body = codes "hello" }

abbrev responses : List (Option Reply)
responses = none ∷ some ok_reply ∷ some ok_reply ∷ []

passes_one : gather false responses ≡ (ok_reply ∷ [], ok_reply ∷ [])
unfolding gather
passes_one = refl

gather_first_run :
    ((gather false responses).0 ++ (gather false responses).1 ≡ replies responses)
    × (first_reply (gather false responses).0 ≡ first_reply (replies responses))
    × (length (gather false responses).0 ≤ 1)
gather_first_run = gather_first responses

forward_read-none_iff_run :
    (forward_read responses empty_response ≡ none) ↔ (replies (map successful responses) ≡ [])
forward_read-none_iff_run = forward_read-none_iff responses empty_response

abbrev filled : ℕ → Bytes
filled zero = []
filled (suc n) = b'x' ∷ filled n

abbrev name : Bytes
name = codes "/Ab/C" ++ filled 40

read_of : Bytes → HttpRequest
read_of path = record { method = codes "GET"; path = path; forward_values = []; header = [] }

filled_chars : (n : ℕ) → All IsNameChar (filled n)
filled_chars zero = tt
filled_chars (suc n) = (refl, filled_chars n)

should_forward_read-named_example :
    should_forward_read (read_of ((codes "/docs" ++ name) ++ codes ".txt")) ≡ true
unfolding read_of extension_here last_is_zero
should_forward_read-named_example =
    should_forward_read-named (read_of ((codes "/docs" ++ name) ++ codes ".txt")) (codes "/docs")
      (codes "/Ab") (codes "/C" ++ filled 40) (codes ".txt")
      (record {
        x = b'A';
        y = b'b';
        z = b'C';
        rest = filled 40;
        dir_eq = refl;
        dst_eq = refl;
        x_first = refl;
        z_first = refl;
        y_char = refl;
        rest_chars = filled_chars 40;
        rest_length = refl;
      })
      refl refl refl

-- The location of a second file with the same hash is not one that reads are forwarded for.
numbered_stays : should_forward_read (read_of ((codes "/docs" ++ name) ++ codes "_2.txt")) ≡ false
unfolding should_forward_read read_of extension_here last_is_zero matches_hash hash_here chars_here
numbered_stays = refl

abbrev same : Bytes → Bytes
same text = text

should_forward_read-forwarded_example :
    should_forward_read (record {
      method = codes "GET";
      path = name;
      forward_values =
          query_values same (forward_url (codes "replica", codes "3404") name) (codes "forward");
      header = [];
    })
    ≡ false
should_forward_read-forwarded_example =
    should_forward_read-forwarded same refl refl (codes "replica") (codes "3404") name _
      (ground arith) (ground arith) (ground arith) refl

-- With a question mark in the path, the query begins there, and the replica forwards the read again.
forwards_again :
    query_values same
      (forward_url (codes "replica", codes "3404") (codes "/a?b" ++ name))
      (codes "forward")
    ≡ []
unfolding query_values forward_url values_of before_byte behind_byte index_byte split take drop
    bytes_eq
forwards_again = refl
