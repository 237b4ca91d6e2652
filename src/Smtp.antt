-- ===== src/Smtp.antt =====
-- The SMTP errors that the gateway answers with (`smtp.SMTPError`).
use mailout_operator.Base.{ℕ}
use mailout_operator.Text.{Bytes}

pub record SmtpError : Type 0 where
  pub code : ℕ
  pub enhanced : ℕ × ℕ × ℕ
  pub message : Bytes
