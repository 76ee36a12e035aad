-- ===== src/Posts/Api/Answers.antt =====
-- Readers get an answer, whatever Redis does.
use myblog.Posts.ReadModel.Totals
use myblog.Kernel.Redis.{Redis}
