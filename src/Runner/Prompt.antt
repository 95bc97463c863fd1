-- ===== src/Runner/Prompt.antt =====
-- `packet_prompt` of fleet/runner/worker.py, with the rules that `packet_for` of fleet/kernel/kernel.py
-- puts into a packet. `json.dumps` of a list of texts and of the siblings is given.
use aidean_fleet.Common.{List, [], ◌∷◌, map, String, if◌then◌else◌}
use aidean_fleet.Common.Text.{is_blank, append}
use aidean_fleet.Kernel.Views.{Sibling, Packet}
use aidean_fleet.Planner.Service.{join}

-- `packet["rules"]`
abbrev pub rules : List String
rules =
    "只改 allowed_files 白名单内文件" ∷ "verify 命令必须真实执行并通过，禁止只声称完成" ∷ "完整报告经 stdout/写回 note 返回，证据由控制面落盘"
    ∷ []

pub record Dumps : Type 0 where
  pub texts : List String → String
  pub siblings : List Sibling → String

abbrev or_text : String → String → String
or_text s d = if is_blank s then d else s

abbrev verify_line : String → String
verify_line cmd = append "- `" (append cmd "`")

unfoldable pub packet_prompt : Dumps → Packet → String
packet_prompt dumps packet = join "\n" (
    append "# 任务：" packet.todo.title
    ∷ ""
    ∷ append "## 总目标\n" packet.goal_title
    ∷ append "## 任务说明\n" (or_text packet.todo.packet packet.todo.title)
    ∷ ""
    ∷ append "## 允许改动的文件\n" (dumps.texts packet.todo.allowed_files)
    ∷ append "## 完成判定\n" (or_text packet.todo.done_when "通过下述验收命令")
    ∷ append "## 验收命令（必须真实执行并通过）\n" (join "\n" (map verify_line packet.todo.verify))
    ∷ ""
    ∷ append "## 规则\n" (join "\n" (map (λ rule. append "- " rule) rules))
    ∷ append "## 其他任务（避免越界）\n" (dumps.siblings packet.siblings)
    ∷ [])
