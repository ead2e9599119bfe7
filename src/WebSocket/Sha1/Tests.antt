-- ===== src/WebSocket/Sha1/Tests.antt =====
-- The digest of `abc`, as the standard gives it.
use cornet.Base.{◌≡◌, refl, [], ◌∷◌, codes, arith}
use cornet.WebSocket.Sha1.Stream.{update-append}
use cornet.WebSocket.Sha1.{
  fresh, rol, load_words, schedule, mix, constant, round, rounds, add_words, compress, flush,
  absorb, room, update_loop, update, zeros, big_endian, padding, pad, digest_of, final,
}

digest_abc :
    final (update fresh (codes "abc"))
    ≡ 0xA9 ∷ 0x99 ∷ 0x3E ∷ 0x36 ∷ 0x47 ∷ 0x06 ∷ 0x81 ∷ 0x6A ∷ 0xBA ∷ 0x3E ∷ 0x25 ∷ 0x71 ∷ 0x78
      ∷ 0x50 ∷ 0xC2 ∷ 0x6C ∷ 0x9C ∷ 0xD0 ∷ 0xD8 ∷ 0x9D ∷ []
unfolding fresh rol load_words schedule mix constant round rounds add_words compress flush absorb
    room update_loop update zeros big_endian padding pad digest_of final
digest_abc = refl

update-append_example : update (update fresh (codes "ab")) (codes "c") ≡ update fresh (codes "abc")
unfolding fresh
update-append_example = update-append fresh (codes "ab") (codes "c") (omega arith)
