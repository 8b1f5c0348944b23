-- ===== src/Envelope/Samples.antt =====
-- A session and two replies to it, for the tests.
use lirvena.Base.{refl, inl, [], ◌∷◌, replicate, arith}
use lirvena.Base.Bytes.{to_be, all-IsByte}
use lirvena.Base.Text.{to_string, digits, is_utf8, utf8_from}
use lirvena.Envelope.Service.{ServiceBody}
use lirvena.Envelope.Session.{SessionAuth, authenticated_auth}
use lirvena.Envelope.Layout.{field}
use lirvena.Envelope.Reply.{Reply, IsReply, reply_header, reply_layout}
use lirvena.Envelope.Binding.{frame_body, IsFrameOf}

abbrev pub session : SessionAuth
session = authenticated_auth 42 (1 ∷ []) (2 ∷ []) (replicate 16 7)

abbrev pub answer : Reply
answer = record {
  sequence = 5;
  return_code = 0;
  extra = [];
  command = b'o' ∷ b'k' ∷ [];
  message_cookie = [];
  compression = 4;
  reserve = [];
  extension = 9 ∷ [];
  payload = 3 ∷ [];
}

answer-IsReply : IsReply answer
unfolding is_utf8 utf8_from to_be
answer-IsReply = record {
  sequence = (omega arith, omega arith);
  return_code = omega arith;
  extra = (omega arith, refl);
  command = (omega arith, refl, refl);
  message_cookie = omega arith;
  compression = (omega arith, refl);
  reserve = omega arith;
  extension = omega arith;
  payload = omega arith;
  bytes = all-IsByte (reply_layout answer) refl;
  header_bytes = all-IsByte (reply_header answer) refl;
}

abbrev pub body : ServiceBody
body = record { auth_flag = 0; flag = 0; uin = b'4' ∷ b'2' ∷ []; encrypted = reply_layout answer }

pub answer-IsFrameOf : IsFrameOf session body answer
unfolding to_string digits to_be
answer-IsFrameOf = record {
  account = refl;
  protects = inl (refl, refl);
  reply = answer-IsReply;
  bytes = all-IsByte (field (frame_body body)) refl;
  body_bytes = all-IsByte (frame_body body) refl;
  fits = omega arith;
}

abbrev pub notice : Reply
notice = record {
  sequence = 9;
  return_code = 0;
  extra = [];
  command = b'p' ∷ [];
  message_cookie = [];
  compression = 4;
  reserve = [];
  extension = 9 ∷ [];
  payload = 3 ∷ [];
}

notice-IsReply : IsReply notice
unfolding is_utf8 utf8_from to_be
notice-IsReply = record {
  sequence = (omega arith, omega arith);
  return_code = omega arith;
  extra = (omega arith, refl);
  command = (omega arith, refl, refl);
  message_cookie = omega arith;
  compression = (omega arith, refl);
  reserve = omega arith;
  extension = omega arith;
  payload = omega arith;
  bytes = all-IsByte (reply_layout notice) refl;
  header_bytes = all-IsByte (reply_header notice) refl;
}

abbrev pub notice_body : ServiceBody
notice_body = record {
  auth_flag = 0;
  flag = 0;
  uin = b'4' ∷ b'2' ∷ [];
  encrypted = reply_layout notice;
}

pub notice-IsFrameOf : IsFrameOf session notice_body notice
unfolding to_string digits to_be
notice-IsFrameOf = record {
  account = refl;
  protects = inl (refl, refl);
  reply = notice-IsReply;
  bytes = all-IsByte (field (frame_body notice_body)) refl;
  body_bytes = all-IsByte (frame_body notice_body) refl;
  fits = omega arith;
}
