-- ===== src/WebSocket/Base64/Tests.antt =====
-- Runs of base64.
use cornet.Base.{◌≡◌, refl, none, some, codes, arith}
use cornet.WebSocket.Base64.RoundTrip.{base64_decode-base64_encode}
use cornet.WebSocket.Base64.{
  alphabet, letter, word_of, base64_encode, val, pad_after, group_loop, joined_word, bytes_of,
  group_end, is_last, decode_loop, base64_decode,
}

padded : base64_encode (codes "foob") ≡ codes "Zm9vYg=="
unfolding base64_encode letter alphabet word_of
padded = refl

read_back : base64_decode (codes "Zm9vYg==") 4 ≡ some (codes "foob")
unfolding base64_decode decode_loop group_end group_loop pad_after val joined_word bytes_of is_last
read_back = refl

-- Padding in a group that is not the last, and a text that is too long for the output.
refused : base64_decode (codes "Zm==Zm9v") 9 ≡ none
unfolding base64_decode decode_loop group_end group_loop pad_after val joined_word bytes_of is_last
refused = refl

too_long : base64_decode (codes "Zm9vYg==") 3 ≡ none
unfolding base64_decode decode_loop group_end group_loop pad_after val joined_word bytes_of is_last
too_long = refl

base64_decode-base64_encode_example :
    base64_decode (base64_encode (codes "foob")) 16 ≡ some (codes "foob")
base64_decode-base64_encode_example =
    base64_decode-base64_encode (codes "foob") 16 (omega arith) (omega arith) (omega arith)
      (omega arith) (omega arith)
