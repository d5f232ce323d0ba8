-- ===== src/SetupWizard/Catalog.antt =====
-- The checks of apps/desktop/src/components/SetupWizard.tsx, with the texts that the wizard shows.
use wormhole.SetupWizard.{SystemCheck, pending, everywhere, only, macos, windows, linux}
use wormhole.Common.{List, [], ◌∷◌, none, some, true, false}

abbrev network_check : SystemCheck
network_check = record {
  id = "network";
  name = "Network Access";
  description = "Required for peer-to-peer connections";
  status = pending;
  required = true;
  help_url = none;
  help_text =
      some "Check your firewall settings and ensure Wormhole is allowed to access the network.";
  install_command = none;
  platform = everywhere;
  why_needed =
      some
        "Wormhole creates direct encrypted connections between computers. Network access is essential for discovering peers and transferring files.";
  security_note =
      some
        "Wormhole only connects to peers you explicitly approve via join codes. No data is sent to external servers.";
  steps = none;
  can_auto_install = none;
}

abbrev fuse_macos_check : SystemCheck
fuse_macos_check = record {
  id = "fuse-macos";
  name = "macFUSE";
  description = "Enables mounting remote folders in Finder";
  status = pending;
  required = true;
  help_url = some "https://osxfuse.github.io/";
  help_text =
      some
        "macFUSE is an open-source project that allows non-kernel software to create file systems on macOS.";
  install_command = some "brew install --cask macfuse";
  platform = only macos;
  why_needed =
      some
        "macFUSE allows Wormhole to show remote folders as if they were local drives in Finder. Without it, you'd need to manually download each file.";
  security_note =
      some
        "macFUSE is a widely-used, open-source kernel extension trusted by millions of developers. It's maintained by the same team that built the original FUSE for macOS. Apple requires you to approve kernel extensions for your security.";
  steps = some (
      "Open Terminal (Applications → Utilities → Terminal)" ∷ "Run: brew install --cask macfuse"
      ∷ "Or download from osxfuse.github.io and run the installer"
      ∷ "After installation, you'll need to approve the kernel extension (next step)" ∷ []);
  can_auto_install = some true;
}

abbrev kernel_extensions_check : SystemCheck
kernel_extensions_check = record {
  id = "kernel-extensions";
  name = "Approve System Extension";
  description = "macFUSE kernel extension must be approved in System Settings";
  status = pending;
  required = true;
  help_url = none;
  help_text =
      some
        "macOS requires you to manually approve kernel extensions for security. This is a one-time setup.";
  install_command = none;
  platform = only macos;
  why_needed =
      some
        "Apple's security model requires explicit user approval for any software that extends the kernel. This protects you from malicious software installing itself silently.";
  security_note =
      some
        "This is a standard macOS security feature, not a workaround. By approving macFUSE, you're telling macOS you trust this well-known open-source software. You can revoke this permission anytime in System Settings.";
  steps = some (
      "Open System Settings (Apple menu → System Settings)" ∷ "Go to Privacy & Security"
      ∷ "Scroll down to the Security section"
      ∷ "You should see a message about blocked software from 'Benjamin Fleischer' (macFUSE developer)"
      ∷ "Click 'Allow' next to the message" ∷ "Enter your password when prompted"
      ∷ "Restart your Mac to complete the setup" ∷ []);
  can_auto_install = none;
}

abbrev winfsp_check : SystemCheck
winfsp_check = record {
  id = "winfsp";
  name = "WinFSP";
  description = "Enables mounting remote folders in File Explorer";
  status = pending;
  required = true;
  help_url = some "https://winfsp.dev/rel/";
  help_text =
      some
        "WinFSP (Windows File System Proxy) is the Windows equivalent of FUSE - it allows programs to create virtual drives.";
  install_command = none;
  platform = only windows;
  why_needed =
      some
        "WinFSP allows Wormhole to show remote folders as drive letters (like W:) in File Explorer. This makes accessing remote files feel just like local files.";
  security_note =
      some
        "WinFSP is an open-source project created by a Microsoft employee. It's used by major software including SSHFS-Win, rclone, and many cloud storage tools. It's been audited and is considered safe.";
  steps = some (
      "Download WinFSP from winfsp.dev/rel/" ∷ "Run the installer (winfsp-x.x.xxxxx.msi)"
      ∷ "Click 'Next' through the installation wizard" ∷ "Accept the default options"
      ∷ "No restart required" ∷ []);
  can_auto_install = some false;
}

abbrev windows_firewall_check : SystemCheck
windows_firewall_check = record {
  id = "windows-firewall";
  name = "Firewall Access";
  description = "Allow Wormhole through Windows Firewall";
  status = pending;
  required = true;
  help_url = none;
  help_text =
      some
        "Windows Firewall protects your computer. Wormhole needs permission to accept incoming connections from peers.";
  install_command = none;
  platform = only windows;
  why_needed =
      some
        "To receive files and connections from other computers, Wormhole needs to accept incoming network connections. Windows Firewall blocks these by default.";
  security_note =
      some
        "When you see the firewall prompt, you're allowing Wormhole (and only Wormhole) to receive connections. This doesn't expose other programs or your files. Only people with your join code can connect.";
  steps = some (
      "When you first share a folder, Windows will show a firewall prompt"
      ∷ "Check both 'Private networks' and 'Public networks'" ∷ "Click 'Allow access'"
      ∷ "If you missed the prompt: open Windows Security → Firewall → Allow an app → Add Wormhole"
      ∷ []);
  can_auto_install = none;
}

abbrev smartscreen_check : SystemCheck
smartscreen_check = record {
  id = "smartscreen";
  name = "Windows SmartScreen";
  description = "App signature verification (one-time)";
  status = pending;
  required = false;
  help_url = none;
  help_text =
      some
        "Windows may show a SmartScreen warning because Wormhole is new and doesn't have an expensive code-signing certificate yet.";
  install_command = none;
  platform = only windows;
  why_needed =
      some
        "Microsoft charges $200-400/year for certificates that prevent SmartScreen warnings. As an open-source project, we're working on getting one.";
  security_note =
      some
        "SmartScreen warnings don't mean software is dangerous - they mean it's not commonly downloaded yet. Wormhole is open-source (github.com/byronwade/Wormhole), so you can verify the code yourself. This warning will go away once more users download Wormhole.";
  steps = some (
      "When you see 'Windows protected your PC' - click 'More info'" ∷ "Click 'Run anyway'"
      ∷ "This is a one-time prompt per version"
      ∷ "You can verify Wormhole is safe by checking our open-source code on GitHub" ∷ []);
  can_auto_install = none;
}

abbrev fuse_linux_check : SystemCheck
fuse_linux_check = record {
  id = "fuse-linux";
  name = "FUSE3";
  description = "Filesystem in Userspace support";
  status = pending;
  required = true;
  help_url = none;
  help_text =
      some
        "FUSE3 is the standard Linux mechanism for user-space filesystems. Most distributions include it by default.";
  install_command =
      some
        "# Debian/Ubuntu:\nsudo apt install fuse3\n\n# Fedora:\nsudo dnf install fuse3\n\n# Arch:\nsudo pacman -S fuse3\n\n# openSUSE:\nsudo zypper install fuse3";
  platform = only linux;
  why_needed =
      some
        "FUSE (Filesystem in Userspace) is a Linux kernel feature that allows Wormhole to create mountable filesystems without requiring root privileges for every operation.";
  security_note =
      some
        "FUSE is a core Linux technology, included in the kernel since 2005. It's used by countless applications including SSHFS, NTFS-3G, and cloud storage tools. Installing it via your package manager is completely safe.";
  steps = some (
      "Open a terminal" ∷ "Run the command for your distribution (see above)"
      ∷ "Enter your password when prompted" ∷ "No restart required" ∷ []);
  can_auto_install = some true;
}

abbrev fuse_group_check : SystemCheck
fuse_group_check = record {
  id = "fuse-group";
  name = "FUSE Permissions";
  description = "User must have permission to use FUSE";
  status = pending;
  required = true;
  help_url = none;
  help_text = some "Your user needs to be in the 'fuse' group to mount filesystems without sudo.";
  install_command = some "sudo usermod -aG fuse $USER && newgrp fuse";
  platform = only linux;
  why_needed =
      some
        "Linux uses groups to manage permissions. The 'fuse' group grants permission to mount user-space filesystems. This avoids needing sudo for every mount operation.";
  security_note =
      some
        "Adding yourself to the 'fuse' group is a standard Linux administration task. It only grants permission to create FUSE mounts - it doesn't give elevated privileges elsewhere.";
  steps = some (
      "Open a terminal" ∷ "Run: sudo usermod -aG fuse $USER" ∷ "Enter your password"
      ∷ "Run: newgrp fuse (or log out and back in)" ∷ "The change persists across reboots" ∷ []);
  can_auto_install = some true;
}

abbrev pub platform_checks : List SystemCheck
platform_checks =
    network_check ∷ fuse_macos_check ∷ kernel_extensions_check ∷ winfsp_check
    ∷ windows_firewall_check ∷ smartscreen_check ∷ fuse_linux_check ∷ fuse_group_check ∷ []
