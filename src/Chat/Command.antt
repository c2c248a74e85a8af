-- ===== src/Chat/Command.antt =====
-- handleCommand (chat_server.cpp): the texts that begin with a slash.
use package.aimeath.Common.{ℕ, suc, ◌||◌, List, Option, none, some, length, if◌then◌else◌}
use mathlib.Core.List.{[], ◌∷◌, ◌++◌}
use package.aimeath.Common.Json.{String, str_eq, string, Members, end, member}
use package.aimeath.Chat.{remember, Agent, Chat}
use package.aimeath.Chat.Text.{
  first_is, split_blank, drop_first, drop_blanks, blank_only, trim_end, after_prefix, decimal,
}
use Prim.Native.String.{◌++◌ as append, slice}

-- A profile of the directory of agents (module/agent/config), as loadAgentsFromDir gives it.
pub record Profile : Type 0 where
  pub name : String
  pub avatar : String
  pub system_prompt : String

abbrev pub display_avatar : String → String
display_avatar avatar =
    if str_eq avatar ""
    then ""
    else (if first_is 47 avatar || str_eq (slice avatar 0 4) "http" then "🤖" else avatar)

abbrev pub embed : String → Members → Members
embed kind rest = member "type" (string "embed") (member "kind" (string kind) rest)

abbrev pub embed_text : String → Members
embed_text text = embed "text" (member "text" (string text) end)

abbrev pub embed_media : String → String → String → Members
embed_media kind url title =
    embed kind (member "url" (string url) (member "title" (string title) end))

-- The lines of `/agent list`, from the number `n` on.
abbrev pub list_agents : ℕ → List Agent → String
list_agents n [] = ""
list_agents n (a ∷ agents) = append (decimal n) (
    append ". " (
      append (display_avatar a.avatar)
        (append " " (append a.name (append "\n" (list_agents (suc n) agents))))))

abbrev pub list_profiles : List Profile → String
list_profiles [] = ""
list_profiles (p ∷ profiles) = append "  " (
    append (display_avatar p.avatar)
      (append " " (append p.name (append "\n" (list_profiles profiles)))))

-- The first profile of a name.
abbrev pub find_profile : String → List Profile → Option Profile
find_profile name [] = none
find_profile name (p ∷ profiles) = if str_eq p.name name then some p else find_profile name profiles

-- The agents without the first one of a name, if there is one.
abbrev pub without : String → List Agent → Option (List Agent)
without name [] = none
without name (a ∷ agents) =
    let rest = without name agents in
    if str_eq a.name name
    then some agents
    else elim rest [ none ↦ none | some agents' ↦ some (a ∷ agents') ]

abbrev pub added : String → Option Profile → Chat → Chat × Members
added name none c = (c, embed_text (append "未找到AI助手: " (append name "。可用: /agent available")))
added name (some p) c = (
  record c {
    agents =
        c.agents
        ++ record {
          name = p.name;
          avatar = p.avatar;
          system_prompt = p.system_prompt;
          callback = remember;
        }
          ∷ [];
  },
  embed_text (append "已添加AI助手: " name),
)

abbrev pub removed : String → Option (List Agent) → Chat → Chat × Members
removed name none c = (c, embed_text (append "未找到AI助手: " name))
removed name (some agents) c = (record c { agents = agents }, embed_text (append "已移除AI助手: " name))

-- The name after `add ` or `remove `.
abbrev pub agent_change : List Profile → Option String → Option String → Chat → Chat × Members
agent_change profiles (some name) other c = added name (find_profile name profiles) c
agent_change profiles none (some name) c = removed name (without name c.agents) c
agent_change profiles none none c =
    (c, embed_text "未知agent命令: /agent list, /agent add <name>, /agent remove <name>")

unfoldable pub agent_command : List Profile → String → Chat → Chat × Members
agent_command profiles arg c =
    if str_eq arg "" || str_eq arg "list"
    then (
      c,
      embed_text (
          append "房间AI助手列表 ("
            (append (decimal (length c.agents)) (append "):\n" (list_agents 1 c.agents)))),
    )
    else (if str_eq arg "available"
        then (c, embed_text (append "可用AI助手配置:\n" (list_profiles profiles)))
        else agent_change profiles (after_prefix "add " arg) (after_prefix "remove " arg) c)

abbrev pub game_or_snake : String → String
game_or_snake game = if str_eq game "" then "snake" else game

abbrev pub embed_game : String → Members
embed_game game = embed "game" (
    member "name" (string game)
      (member "url" (string (append "/" game)) (member "title" (string (append "游戏：" game)) end)))

-- A text that may begin with the word for a game.
abbrev pub game_or_unknown : String → Option String → Members
game_or_unknown cmd none = embed_text (append "未知命令: /" cmd)
game_or_unknown cmd (some game) = embed_game (game_or_snake game)

unfoldable pub media_command : String → String → String → Members
media_command s cmd arg =
    if str_eq s "图片"
    then embed_media "image" "/res/C220748556D18ADBC61177B1A5A8151D.png" "照片"
    else (if str_eq s "视频"
        then embed_media "video" "/res/result.mp4" "视频"
        else (if str_eq s "音乐"
            then embed_media "audio" "/res/超级敏感.wav" "超级敏感"
            else (if str_eq cmd "游戏"
                then embed_game (game_or_snake arg)
                else game_or_unknown cmd (after_prefix "游戏" s))))

-- The word after the slash, and what follows it without the blanks before it.
abbrev pub argument : Option String → String
argument none = ""
argument (some rest) = if blank_only rest then rest else drop_blanks rest

abbrev pub run_command : List Profile → String → String × Option String → Chat → Chat × Members
run_command profiles s (cmd, rest) c =
    if str_eq cmd "agent"
    then agent_command profiles (argument rest) c
    else (c, media_command s cmd (argument rest))

unfoldable pub handle_command : List Profile → String → Chat → Chat × Members
unfolding agent_command media_command
handle_command profiles text c =
    let s = trim_end (drop_first text) in run_command profiles s (split_blank s) c
